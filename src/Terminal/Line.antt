-- ===== src/Terminal/Line.antt =====
-- softmodem-terminal/src/line.rs: collects command lines. What `push` takes from the settings, which are
-- the terminator, the backspace and whether to echo, are its arguments, as a record.
pub mod Typing
use softmodem_rs.Prelude.{
  ℕ, ◌+◌, Bool, true, false, not, ◌&&◌, ◌||◌, Option, none, some, List, [], ◌∷◌, ◌++◌, ◌==◌, leb,
  if◌then◌else◌, length, drop,
}

abbrev pub max_line : ℕ
max_line = 255

pub data Input : Type 0 where
  line : List ℕ → Input
  repeat : List ℕ → Input

pub record LineEditor : Type 0 where
  pub buffer : List ℕ
  pub last : List ℕ

-- `settings.terminator()`, `settings.backspace()` and `settings.echo`.
pub record Keys : Type 0 where
  pub terminator : ℕ
  pub backspace : ℕ
  pub echo : Bool

unfoldable pub new : LineEditor
new = record { buffer = []; last = [] }

-- `eq_ignore_ascii_case` with a capital letter.
abbrev pub is_letter : ℕ → ℕ → Bool
is_letter byte capital = byte == capital || byte == capital + 32

abbrev pub starts_with_at : List ℕ → Bool
starts_with_at [] = false
starts_with_at (x ∷ []) = false
starts_with_at (x ∷ y ∷ rest) = is_letter x 65 && is_letter y 84

abbrev is_empty : List ℕ → Bool
is_empty [] = true
is_empty (x ∷ xs) = false

abbrev pub but_last : List ℕ → List ℕ
but_last [] = []
but_last (x ∷ []) = []
but_last (x ∷ y ∷ rest) = x ∷ but_last (y ∷ rest)

unfoldable pub end_line : LineEditor → LineEditor × Option Input
end_line d =
    if starts_with_at d.buffer
    then (record { buffer = []; last = drop 2 d.buffer }, some (line (drop 2 d.buffer)))
    else (record d { buffer = [] }, none)

unfoldable pub after_a : LineEditor → ℕ → LineEditor × Option Input
after_a d byte =
    if byte == 47
    then (record d { buffer = [] }, some (repeat d.last))
    else if is_letter byte 84
    then (d, none)
    else (record d { buffer = [] }, none)

abbrev pub echoed : Keys → List ℕ → List ℕ → List ℕ
echoed keys bytes out = if keys.echo then out ++ bytes else out

-- A byte that is neither the terminator nor the backspace, and fits.
unfoldable pub take_byte : LineEditor → ℕ → LineEditor × Option Input
unfolding after_a
take_byte d byte =
    let d' : LineEditor = record d { buffer = d.buffer ++ byte ∷ [] } in
    if length d'.buffer == 2 then after_a d' byte else (d', none)

unfoldable pub push : Keys → LineEditor → ℕ → List ℕ → (LineEditor × Option Input) × List ℕ
unfolding end_line take_byte
push keys d byte out =
    if byte == keys.terminator
    then (end_line d, echoed keys (byte ∷ []) out)
    else if byte == keys.backspace
    then (
      (record d { buffer = but_last d.buffer }, none),
      if is_empty d.buffer then out else echoed keys (byte ∷ 32 ∷ byte ∷ []) out,
    )
    else if is_empty d.buffer && not (is_letter byte 65)
    then ((d, none), out)
    else if leb max_line (length d.buffer) || byte == 10
    then ((d, none), out)
    else (take_byte d byte, echoed keys (byte ∷ []) out)
