-- ===== src/Terminal/Escape.antt =====
-- softmodem-terminal/src/escape.rs: finds the `+++` escape in data mode. Instants and durations are
-- numbers of one unit, and the time since a later instant is 0.
pub mod Stream
use softmodem_rs.Prelude.{
  ℕ, ◌+◌, ◌-◌, Bool, true, false, not, ◌&&◌, ◌||◌, Option, none, some, List, [], ◌∷◌, ◌++◌, ◌==◌,
  ltb, leb, if◌then◌else◌, length,
}

pub record EscapeDetector : Type 0 where
  pub last_data : ℕ
  pub held : List ℕ
  pub last_held : ℕ

pub data Timeout : Type 0 where
  escaped : Timeout
  release : List ℕ → Timeout

unfoldable pub new : ℕ → EscapeDetector
new now = record { last_data = now; held = []; last_held = now }

abbrev is_empty : List ℕ → Bool
is_empty [] = true
is_empty (x ∷ xs) = false

-- `Some(byte) == escape`
abbrev is_escape : Option ℕ → ℕ → Bool
is_escape none byte = false
is_escape (some c) byte = byte == c

-- The detector, and what may be sent after what was there already.
unfoldable pub push : EscapeDetector → ℕ → Option ℕ → ℕ → ℕ → List ℕ → EscapeDetector × List ℕ
push d byte escape guard now out =
    let continues =
      not (is_empty d.held) && ltb (length d.held) 3 && ltb (now - d.last_held) guard in
    let starts = is_empty d.held && leb guard (now - d.last_data) in
    if is_escape escape byte && (continues || starts)
    then (record d { held = d.held ++ byte ∷ []; last_held = now }, out)
    else (record d { held = []; last_data = now }, (out ++ d.held) ++ byte ∷ [])

unfoldable pub deadline : EscapeDetector → ℕ → Option ℕ
deadline d guard = if is_empty d.held then none else some (d.last_held + guard)

unfoldable pub poll : EscapeDetector → ℕ → ℕ → EscapeDetector × Option Timeout
poll d guard now = if is_empty d.held || ltb (now - d.last_held) guard then (d, none) else (
  record d { last_data = d.last_held; held = [] },
  some (if length d.held == 3 then escaped else release d.held),
)
