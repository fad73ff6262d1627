-- ===== src/V34/Mp.antt =====
-- softmodem-dsp/src/v34/mp.rs: the MP sequences of V.34, written and found. A precoding coefficient is
-- the number of its 16 bits, as `cast_unsigned` gives it.
pub mod RoundTrip
use softmodem_rs.Prelude.{
  ℕ, zero, suc, ◌+◌, ◌-◌, ◌*◌, ◌/◌, ◌%◌, ◌^◌, Bool, true, false, not, ◌&&◌, Option, none, some,
  List, [], ◌∷◌, ◌++◌, ◌==◌, ltb, leb, if◌then◌else◌, take, drop, length, replicate, get_or,
}
use softmodem_rs.V34.Bits.{crc, field_from, field, flag, number, from_bool}

abbrev pub sync_ones : ℕ
sync_ones = 17

abbrev pub word : ℕ
word = 16

abbrev pub type_0_words : ℕ
type_0_words = 4

abbrev pub type_1_words : ℕ
type_1_words = 10

pub data Trellis : Type 0 where
  states16 : Trellis
  states32 : Trellis
  states64 : Trellis

-- h(1) to h(3), real and imaginary.
abbrev pub Precoding : Type 0
Precoding = (ℕ × ℕ) × ((ℕ × ℕ) × (ℕ × ℕ))

pub record Mp : Type 0 where
  pub max_call_to_answer : ℕ
  pub max_answer_to_call : ℕ
  pub auxiliary : Bool
  pub trellis : Trellis
  pub nonlinear : Bool
  pub expanded_shaping : Bool
  pub acknowledge : Bool
  pub rates : ℕ
  pub asymmetric : Bool
  pub precoding : Option Precoding

pub record Asks : Type 0 where
  pub trellis : Trellis
  pub nonlinear : Bool
  pub expanded_shaping : Bool
  pub precoding : Precoding

abbrev is_zero : Precoding → Bool
is_zero ((a, b), ((c, d), (e, f))) = a == 0 && b == 0 && c == 0 && d == 0 && e == 0 && f == 0

unfoldable pub ask : Asks → Mp → Mp
ask a mp = record mp {
  trellis = a.trellis;
  nonlinear = a.nonlinear;
  expanded_shaping = a.expanded_shaping;
  precoding = if is_zero a.precoding then none else some a.precoding;
}

abbrev pub is_some : Option Precoding → Bool
is_some none = false
is_some (some h) = true

abbrev pub trellis_code : Trellis → ℕ
trellis_code states16 = 0
trellis_code states32 = 1
trellis_code states64 = 2

abbrev pub first_word : Mp → ℕ
first_word mp =
    from_bool (is_some mp.precoding)
    + mp.max_call_to_answer % 16 * 2 ^ 2
    + mp.max_answer_to_call % 16 * 2 ^ 6
    + from_bool mp.auxiliary * 2 ^ 10
    + trellis_code mp.trellis * 2 ^ 11
    + from_bool mp.nonlinear * 2 ^ 13
    + from_bool mp.expanded_shaping * 2 ^ 14
    + from_bool mp.acknowledge * 2 ^ 15

abbrev pub second_word : Mp → ℕ
second_word mp = mp.rates % 2 ^ 14 + from_bool mp.asymmetric * 2 ^ 15

abbrev pub coefficients : Option Precoding → List ℕ
coefficients none = []
coefficients (some ((a, b), ((c, d), (e, f)))) = a ∷ b ∷ c ∷ d ∷ e ∷ f ∷ []

unfoldable pub words : Mp → List ℕ
words mp = first_word mp ∷ second_word mp ∷ (coefficients mp.precoding ++ 0 ∷ [])

abbrev pub word_bits : ℕ → List Bool
word_bits w = field_from w 0 word

unfoldable pub flat_bits : List ℕ → List Bool
flat_bits [] = []
flat_bits (w ∷ ws) = word_bits w ++ flat_bits ws

-- Each word after a 0 start bit.
unfoldable pub blocks : List ℕ → List Bool
blocks [] = []
blocks (w ∷ ws) = false ∷ (word_bits w ++ blocks ws)

-- The sequence without its fill.
unfoldable pub sequence : List ℕ → List Bool
unfolding crc flat_bits blocks
sequence ws = replicate sync_ones true ++ blocks (ws ++ crc (flat_bits ws) ∷ [])

unfoldable pub frame : Mp → List Bool
unfolding words sequence field
frame mp = field (sequence (words mp)) 0 (if is_some mp.precoding then 1 else 3)

abbrev pub read_trellis : ℕ → Option Trellis
read_trellis code =
    if code == 0
    then some states16
    else if code == 1
    then some states32
    else if code == 2
    then some states64
    else none

abbrev pub read_precoding : List ℕ → Option Precoding
read_precoding ws =
    if get_or ws 0 0 % 2 == 1
    then some (
      (get_or ws 2 0, get_or ws 3 0),
      ((get_or ws 4 0, get_or ws 5 0), (get_or ws 6 0, get_or ws 7 0)),
    )
    else none

abbrev pub to_mp : List ℕ → Trellis → Mp
to_mp ws trellis =
    let first = get_or ws 0 0 in
    let second = get_or ws 1 0 in
    record {
      max_call_to_answer = first / 2 ^ 2 % 16;
      max_answer_to_call = first / 2 ^ 6 % 16;
      auxiliary = first / 2 ^ 10 % 2 == 1;
      trellis = trellis;
      nonlinear = first / 2 ^ 13 % 2 == 1;
      expanded_shaping = first / 2 ^ 14 % 2 == 1;
      acknowledge = first / 2 ^ 15 == 1;
      rates = second % 2 ^ 14;
      asymmetric = second / 2 ^ 15 == 1;
      precoding = read_precoding ws;
    }

abbrev pub with_trellis : List ℕ → Option Trellis → Option Mp
with_trellis ws none = none
with_trellis ws (some trellis) = some (to_mp ws trellis)

-- The words are as many as their first one asks for.
unfoldable pub from_words : List ℕ → Option Mp
from_words ws = with_trellis ws (read_trellis (get_or ws 0 0 / 2 ^ 11 % 4))

abbrev all_ones : List Bool → Bool
all_ones [] = true
all_ones (bit ∷ bits) = bit && all_ones bits

abbrev prepend : ℕ → Option (List ℕ) → Option (List ℕ)
prepend w none = none
prepend w (some ws) = some (w ∷ ws)

-- The loop over the blocks, `n` of them.
unfoldable pub read_blocks : ℕ → List Bool → Option (List ℕ)
unfolding number
read_blocks zero bits = some []
read_blocks (suc n) [] = some []
read_blocks (suc n) (true ∷ bits) = none
read_blocks (suc n) (false ∷ bits) =
    prepend (number (take word bits)) (read_blocks n (drop word bits))

-- `Vec::pop`, what is left.
abbrev but_last : List ℕ → List ℕ
but_last [] = []
but_last (w ∷ []) = []
but_last (w ∷ v ∷ ws) = w ∷ but_last (v ∷ ws)

abbrev checked : Option (List ℕ) → Option (List ℕ)
checked none = none
checked (some found) =
    if crc (flat_bits found) == 0 && ltb 0 (length found) then some (but_last found) else none

-- The frame of a sequence: its sync, then its blocks.
unfoldable pub read_tail : ℕ → List Bool → Option (List ℕ)
unfolding read_blocks crc flat_bits
read_tail n tail =
    if all_ones (take sync_ones tail)
    then checked (read_blocks (n + 1) (drop sync_ones tail))
    else none

-- The `n` words before the CRC, if the bits end with a sequence of so many.
unfoldable pub words_at_end : List Bool → ℕ → Option (List ℕ)
unfolding read_tail
words_at_end bits n =
    let length' = sync_ones + (n + 1) * (word + 1) in
    if leb length' (length bits) then read_tail n (drop (length bits - length') bits) else none

abbrev pub precoded : ℕ → List ℕ → Option Mp
precoded count ws =
    let wanted =
      if get_or ws 0 0 % 2 == 1 then count == type_1_words else not (count == type_1_words) in
    if wanted then from_words ws else none

abbrev pub try_words : ℕ → Option (List ℕ) → Option Mp
try_words count none = none
try_words count (some ws) = precoded count ws

abbrev pub or_else : Option Mp → Option Mp → Option Mp
or_else none other = other
or_else (some mp) other = some mp

-- The `find_map` of `push`: a sequence of type 0, else one of type 1.
unfoldable pub find : List Bool → Option Mp
unfolding words_at_end from_words
find bits =
    or_else (try_words type_0_words (words_at_end bits (type_0_words - 1)))
      (try_words type_1_words (words_at_end bits (type_1_words - 1)))

pub record Deframer : Type 0 where
  pub window : List Bool
  pub ones : ℕ

unfoldable pub new : Deframer
new = record { window = []; ones = 0 }

abbrev pub longest : ℕ
longest = sync_ones + type_1_words * (word + 1)

abbrev pub slide : List Bool → Bool → List Bool
slide window bit =
    let bits = window ++ bit ∷ [] in if ltb longest (length bits) then drop 1 bits else bits

abbrev pub cleared : List Bool → Option Mp → List Bool
cleared bits none = bits
cleared bits (some mp) = []

unfoldable pub push : Deframer → Bool → Deframer × Option Mp
unfolding find
push d bit =
    let bits = slide d.window bit in
    let mp = find bits in
    (record { window = cleared bits mp; ones = if bit then d.ones + 1 else 0 }, mp)
