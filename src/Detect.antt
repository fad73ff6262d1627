-- ===== src/Detect.antt =====
-- softmodem-link/src/detect.rs: the patterns of the V.42 detection phase.
pub mod Patterns
use softmodem_rs.Prelude.{
  ℕ, ◌+◌, Bool, true, false, not, ◌&&◌, ◌||◌, Option, none, some, List, [], ◌∷◌, ◌++◌, ◌==◌, length,
  drop, if◌then◌else◌, replicate,
}
use softmodem_rs.Uart.{frame}

abbrev pub dc1_even : ℕ
dc1_even = 17

abbrev pub dc1_odd : ℕ
dc1_odd = 145

abbrev pub e : ℕ
e = 69

abbrev pub c : ℕ
c = 67

abbrev pub null : ℕ
null = 0

-- ONES
abbrev pub ones : ℕ
ones = 10

pub data Adp : Type 0 where
  lapm : Adp
  no_error_correction : Adp

-- The characters of a pattern are two; each has its marks after it.
unfoldable pub push_pattern : List Bool → ℕ × ℕ → List Bool
push_pattern out (a, b) = out ++ frame a ++ replicate ones true ++ frame b ++ replicate ones true

unfoldable pub push_odp : List Bool → List Bool
push_odp out = push_pattern out (dc1_even, dc1_odd)

abbrev pub second : Adp → ℕ
second lapm = c
second no_error_correction = null

unfoldable pub push_adp : List Bool → Adp → List Bool
push_adp out adp = push_pattern out (e, second adp)

-- `last`, the oldest character first.
pub record Heard : Type 0 where
  pub last : List ℕ

unfoldable pub push : Heard → ℕ → Heard
push h byte = record { last = (if length h.last == 4 then drop 1 h.last else h.last) ++ byte ∷ [] }

abbrev is_dc1 : ℕ → Bool
is_dc1 b = b == dc1_even || b == dc1_odd

abbrev all_dc1 : List ℕ → Bool
all_dc1 [] = true
all_dc1 (b ∷ bs) = is_dc1 b && all_dc1 bs

-- `zip` with `skip(1)`: no two neighbours are the same.
abbrev all_differ : List ℕ → Bool
all_differ [] = true
all_differ (a ∷ []) = true
all_differ (a ∷ b ∷ bs) = not (a == b) && all_differ (b ∷ bs)

unfoldable pub odp : Heard → Bool
odp h = length h.last == 4 && all_dc1 h.last && all_differ h.last

-- The match of `adp` on a slice of four.
abbrev pub match_adp : ℕ → ℕ → ℕ → ℕ → Option Adp
match_adp p q r s =
    if p == e && q == c && r == e && s == c
    then some lapm
    else if p == e && q == null && r == e && s == null
    then some no_error_correction
    else none

unfoldable pub adp : Heard → Option Adp
adp h = elim h.last [ p ∷ q ∷ r ∷ s ∷ [] ↦ match_adp p q r s | _ ↦ none ]

-- The characters that came, in order.
unfoldable pub push_all : Heard → List ℕ → Heard
push_all h [] = h
push_all h (byte ∷ bytes) = push_all (push h byte) bytes
