-- ===== src/V34/Mp/RoundTrip/Fields.antt =====
-- The fields of an MP of mp.rs, as words and read back.
use softmodem_rs.Prelude.{
  ℕ, ◌+◌, ◌*◌, ◌/◌, ◌%◌, ◌^◌, ◌<◌, ◌≡◌, refl, ap, ◌∙◌, Bool, true, false, Option, none, some, [],
  ◌∷◌, ◌++◌, ◌==◌, All, All-append, length, arith,
}
use softmodem_rs.V34.Bits.{from_bool}
use softmodem_rs.V34.Mp.{
  Trellis, states16, states32, states64, Precoding, Mp, is_some, trellis_code, first_word,
  second_word, coefficients, words, read_precoding, read_trellis, from_words, to_mp, with_trellis,
}
use softmodem_rs.V34.Mp.RoundTrip.Blocks.{IsWord}

-- What the parameters are below.
abbrev pub IsPrecoding : Option Precoding → Type 0
IsPrecoding h = All IsWord (coefficients h)

abbrev pub IsMp : Mp → Type 0
IsMp mp =
    (mp.max_call_to_answer < 16)
    × (mp.max_answer_to_call < 16)
    × (mp.rates < 2 ^ 14)
    × IsPrecoding mp.precoding

pub digit : (b : Bool) (x : ℕ) → x ≡ from_bool b → (x == 1) ≡ b
digit true x e = ground arith
digit false x e = ground arith

read_trellis-code : (t : Trellis) (x : ℕ) → x ≡ trellis_code t → read_trellis x ≡ some t
read_trellis-code states16 x e = ap read_trellis e
read_trellis-code states32 x e = ap read_trellis e
read_trellis-code states64 x e = ap read_trellis e

-- Eight fields of a word.
pub fields :
    (p m a x t n e k : ℕ)
    → p < 2
    → m < 16
    → a < 16
    → x < 2
    → t < 4
    → n < 2
    → e < 2
    → k < 2
    → (w : ℕ)
    → w ≡ p + m * 2 ^ 2 + a * 2 ^ 6 + x * 2 ^ 10 + t * 2 ^ 11 + n * 2 ^ 13 + e * 2 ^ 14 + k * 2 ^ 15
    → (w % 2 ≡ p)
      × (w / 2 ^ 2 % 16 ≡ m)
      × (w / 2 ^ 6 % 16 ≡ a)
      × (w / 2 ^ 10 % 2 ≡ x)
      × (w / 2 ^ 11 % 4 ≡ t)
      × (w / 2 ^ 13 % 2 ≡ n)
      × (w / 2 ^ 14 % 2 ≡ e)
      × (w / 2 ^ 15 ≡ k)
fields p m a x t n e k hp hm ha hx ht hn he hk w eq = (
  omega arith,
  omega arith,
  omega arith,
  omega arith,
  omega arith,
  omega arith,
  omega arith,
  omega arith,
)

from_bool-lt : (b : Bool) → from_bool b < 2
from_bool-lt true = omega arith
from_bool-lt false = omega arith

trellis_code-lt : (t : Trellis) → trellis_code t < 4
trellis_code-lt states16 = omega arith
trellis_code-lt states32 = omega arith
trellis_code-lt states64 = omega arith

pub first_word-fields :
    (mp : Mp)
    → IsMp mp
    → (w : ℕ) → w ≡ first_word mp
    → (w % 2 ≡ from_bool (is_some mp.precoding))
      × (w / 2 ^ 2 % 16 ≡ mp.max_call_to_answer)
      × (w / 2 ^ 6 % 16 ≡ mp.max_answer_to_call)
      × (w / 2 ^ 10 % 2 ≡ from_bool mp.auxiliary)
      × (w / 2 ^ 11 % 4 ≡ trellis_code mp.trellis)
      × (w / 2 ^ 13 % 2 ≡ from_bool mp.nonlinear)
      × (w / 2 ^ 14 % 2 ≡ from_bool mp.expanded_shaping)
      × (w / 2 ^ 15 ≡ from_bool mp.acknowledge)
first_word-fields mp (hm, ha, hr, hp) w e =
    let m : mp.max_call_to_answer % 16 ≡ mp.max_call_to_answer = omega arith in
    let a : mp.max_answer_to_call % 16 ≡ mp.max_answer_to_call = omega arith in
    fields (from_bool (is_some mp.precoding)) mp.max_call_to_answer mp.max_answer_to_call
      (from_bool mp.auxiliary) (trellis_code mp.trellis) (from_bool mp.nonlinear)
      (from_bool mp.expanded_shaping) (from_bool mp.acknowledge)
      (from_bool-lt (is_some mp.precoding)) hm ha (from_bool-lt mp.auxiliary)
      (trellis_code-lt mp.trellis) (from_bool-lt mp.nonlinear) (from_bool-lt mp.expanded_shaping)
      (from_bool-lt mp.acknowledge) w (omega arith)

-- The words of an MP, with their number at most 16 bits.
pub words-IsWord : (mp : Mp) → IsMp mp → All IsWord (words mp)
unfolding words
words-IsWord mp (hm, ha, hr, hp) =
    let p = from_bool-lt (is_some mp.precoding) in
    let x = from_bool-lt mp.auxiliary in
    let t = trellis_code-lt mp.trellis in
    let n = from_bool-lt mp.nonlinear in
    let e = from_bool-lt mp.expanded_shaping in
    let k = from_bool-lt mp.acknowledge in
    let y = from_bool-lt mp.asymmetric in
    (
      omega arith,
      (omega arith, All-append IsWord (coefficients mp.precoding) (0 ∷ []) hp (omega arith, tt)),
    )

read_precoding-coefficients :
    (h : Option Precoding) (first second : ℕ)
    → first % 2 ≡ from_bool (is_some h)
    → read_precoding (first ∷ second ∷ (coefficients h ++ 0 ∷ [])) ≡ h
read_precoding-coefficients none first second e = rw (digit false (first % 2) e)
read_precoding-coefficients (some h) first second e = rw (digit true (first % 2) e)

second_word-fields :
    (mp : Mp)
    → IsMp mp
    → (second_word mp % 2 ^ 14 ≡ mp.rates) × (second_word mp / 2 ^ 15 ≡ from_bool mp.asymmetric)
second_word-fields mp (hm, ha, hr, hp) =
    let y = from_bool-lt mp.asymmetric in (omega arith, omega arith)

pub from_words-words : (mp : Mp) → IsMp mp → from_words (words mp) ≡ some mp
unfolding from_words words
from_words-words mp ok =
    let (p, m, a, x, t, n, e, k) = first_word-fields mp ok (first_word mp) refl in
    let (r, y) = second_word-fields mp ok in
    let h = read_precoding-coefficients mp.precoding (first_word mp) (second_word mp) p in
    let same : to_mp (words mp) mp.trellis ≡ mp = λ i. record {
      max_call_to_answer = m i;
      max_answer_to_call = a i;
      auxiliary = digit mp.auxiliary _ x i;
      trellis = mp.trellis;
      nonlinear = digit mp.nonlinear _ n i;
      expanded_shaping = digit mp.expanded_shaping _ e i;
      acknowledge = digit mp.acknowledge _ k i;
      rates = r i;
      asymmetric = digit mp.asymmetric _ y i;
      precoding = h i;
    } in
    ap (with_trellis (words mp)) (read_trellis-code mp.trellis _ t) ∙ ap some same

abbrev pub word_count : Option Precoding → ℕ
word_count none = 3
word_count (some h) = 9

pub length-coefficients :
    (h : Option Precoding) → length (coefficients h ++ 0 ∷ []) + 2 ≡ word_count h
length-coefficients none = omega arith
length-coefficients (some h) = omega arith
