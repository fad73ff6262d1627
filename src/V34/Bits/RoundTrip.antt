-- ===== src/V34/Bits/RoundTrip.antt =====
-- A field of bits.rs is read as it was written, and a CRC sent after its bits brings the register to 0.
use softmodem_rs.Prelude.{
  ℕ, zero, suc, ◌+◌, ◌*◌, ◌/◌, ◌%◌, ◌^◌, ◌<◌, ◌≡◌, refl, ap, ap₂, sym, ◌∙◌, Bool, true, false, List,
  [], ◌∷◌, ◌++◌, ◌==◌, if◌then◌else◌, take_prefix, drop_prefix, length, xor, bit_xor, if_cases,
  arith,
}
use softmodem_rs.Prelude.Powers.{div-halves, div-first, mod-halves}
use softmodem_rs.V34.Bits.{
  crc_polynomial, crc_step, crc_from, crc, field_from, field, from_bool, number, read_field,
}
use softmodem_rs.Prelude.Bits.{bit_xor-lt}
use native.Mathlib.Nat.{mod-eq_of_lt}

from_bool-digit : (x : ℕ) → from_bool (x % 2 == 1) ≡ x % 2
from_bool-digit x = ground arith

number-field_from :
    (value n width : ℕ) → number (field_from value n width) ≡ value / 2 ^ n % 2 ^ width
unfolding number field_from
number-field_from value n zero = omega arith
number-field_from value n (suc width) =
    ap₂ (λ high low. high * 2 + low)
      (number-field_from value (suc n) width ∙ ap (λ x. x % 2 ^ width) (div-halves value n))
      (from_bool-digit (value / 2 ^ n))
    ∙ sym (mod-halves (value / 2 ^ n) width)

pub length-field_from : (value n width : ℕ) → length (field_from value n width) ≡ width
unfolding field_from
length-field_from value n zero = refl
length-field_from value n (suc width) = ap suc (length-field_from value (suc n) width)

pub number-field : (value width : ℕ) → value < 2 ^ width → number (field_from value 0 width) ≡ value
number-field value width h =
    number-field_from value 0 width ∙ ap (λ x. x % 2 ^ width) (omega arith) ∙ mod-eq_of_lt h

crc_from-append : (r : ℕ) (xs ys : List Bool) → crc_from r (xs ++ ys) ≡ crc_from (crc_from r xs) ys
unfolding crc_from
crc_from-append r [] ys = refl
crc_from-append r (x ∷ xs) ys = crc_from-append (crc_step r x) xs ys

xor_same : (b : Bool) → xor b b ≡ false
unfolding mathlib.Core.Bool.xor
xor_same true = refl
xor_same false = refl

-- The lowest digit of the register as input: no feedback.
crc_step_own : (r : ℕ) → crc_step r (r % 2 == 1) ≡ r / 2
unfolding crc_step
crc_step_own r =
    ap (λ t. if t then bit_xor (r / 2) crc_polynomial else r / 2) (xor_same (r % 2 == 1))

crc_from_own :
    (value n width : ℕ)
    → crc_from (value / 2 ^ n) (field_from value n width) ≡ value / 2 ^ n / 2 ^ width
unfolding crc_from field_from
crc_from_own value n zero = omega arith
crc_from_own value n (suc width) =
    let rest = field_from value (suc n) width in
    let v = value / 2 ^ n in
    ap (λ r. crc_from r rest) (crc_step_own v ∙ sym (div-halves value n))
    ∙ crc_from_own value (suc n) width
    ∙ ap (λ x. x / 2 ^ width) (div-halves value n)
    ∙ sym (div-first v width)

crc_step-lt : (r : ℕ) (bit : Bool) → r < 2 ^ 16 → crc_step r bit < 2 ^ 16
unfolding crc_step
crc_step-lt r bit h =
    if_cases (λ x. x < 2 ^ 16) (xor (r % 2 == 1) bit) _ _
      (λ feedback. bit_xor-lt 16 (r / 2) crc_polynomial (omega arith) (omega arith))
      (λ none_back. omega arith)

crc_from-lt : (bits : List Bool) (r : ℕ) → r < 2 ^ 16 → crc_from r bits < 2 ^ 16
unfolding crc_from
crc_from-lt [] r h = h
crc_from-lt (bit ∷ bits) r h = crc_from-lt bits (crc_step r bit) (crc_step-lt r bit h)

pub crc-lt : (bits : List Bool) → crc bits < 2 ^ 16
unfolding crc
crc-lt bits = crc_from-lt bits 0xFFFF (omega arith)

-- Bits followed by their CRC, sent as a field, have the CRC 0.
pub crc-own : (bits : List Bool) → crc (bits ++ field_from (crc bits) 0 16) ≡ 0
unfolding crc
crc-own bits =
    let r = crc bits in
    let whole : r / 2 ^ 0 ≡ r = omega arith in
    crc_from-append 0xFFFF bits (field_from r 0 16)
    ∙ ap (λ x. crc_from x (field_from r 0 16)) (sym whole)
    ∙ crc_from_own r 0 16
    ∙ omega (arith, crc-lt bits)

-- What the reader takes back is the value that was written, and the bits after it are left.
pub read_field-field :
    (value width : ℕ) (rest : List Bool)
    → value < 2 ^ width
    → read_field (field [] value width ++ rest) width ≡ (value, rest)
unfolding read_field field
read_field-field value width rest h =
    let bits = field_from value 0 width in
    let n = length-field_from value 0 width in
    ap₂ (λ (v : ℕ) (l : List Bool). (v, l))
      (ap number (take_prefix width bits rest n) ∙ number-field value width h)
      (drop_prefix width bits rest n)
