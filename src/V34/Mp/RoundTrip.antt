-- ===== src/V34/Mp/RoundTrip.antt =====
-- The deframer of mp.rs finds a sequence as soon as its last bit is there, and reads what was written.
pub mod Blocks
pub mod Fields
use softmodem_rs.Prelude.{
  ℕ, zero, suc, ◌+◌, ◌-◌, ◌*◌, ◌/◌, ◌%◌, ◌^◌, ◌≤◌, ◌<◌, ◌≡◌, refl, ap, ap₂, sym, ◌∙◌, subst, Bool,
  true, false, not, Bool-cases, inl, inr, Option, none, some, List, [], ◌∷◌, ◌++◌, ◌==◌, ==_iff,
  ◌&&◌, ltb, leb, le→leb, if◌then◌else◌, All, All-append, take, drop, take_prefix, drop_prefix,
  length, length-append, length-replicate, replicate, append_assoc, append-nil, get_or, arith,
}
use softmodem_rs.V34.Bits.{crc, field_from, number, from_bool}
use softmodem_rs.V34.Bits.RoundTrip.{crc-own, crc-lt, number-field, length-field_from}
use softmodem_rs.V34.Mp.{
  sync_ones, word, Trellis, states16, states32, states64, Precoding, Mp, is_some, type_1_words,
  type_0_words, try_words, or_else, cleared, trellis_code, first_word, second_word, coefficients,
  words, word_bits, flat_bits, blocks, sequence, read_precoding, read_trellis, from_words, all_ones,
  read_blocks, words_at_end, read_tail, checked, but_last, find, Deframer, slide, push, to_mp,
  with_trellis,
}
use softmodem_rs.V34.Mp.RoundTrip.Blocks.{words_at_end-sequence, words_at_end-blocks}
use softmodem_rs.V34.Mp.RoundTrip.Fields.{
  IsMp, digit, fields, first_word-fields, words-IsWord, from_words-words, word_count,
  length-coefficients,
}

wanted : (s b c : Bool) → b ≡ s → c ≡ s → (if b then c else not c) ≡ true
wanted true b c e f = rw (e, f)
wanted false b c e f = rw (e, f)

try_words-words :
    (count : ℕ) (mp : Mp)
    → IsMp mp
    → (count == type_1_words) ≡ is_some mp.precoding
    → try_words count (some (words mp)) ≡ some mp
unfolding words
try_words-words count mp ok e =
    let p = (first_word-fields mp ok (first_word mp) refl).0 in
    let bit = digit (is_some mp.precoding) _ p in
    rw (wanted (is_some mp.precoding) _ _ bit e) (from_words-words mp ok)

length-words : (mp : Mp) → length (words mp) ≡ word_count mp.precoding
unfolding words
length-words mp = omega (arith, length-coefficients mp.precoding)

type_0-none :
    (pre : List Bool) (mp : Mp) (h : Precoding)
    → mp.precoding ≡ some h
    → words_at_end (pre ++ sequence (words mp)) 3 ≡ none
unfolding sequence words
type_0-none pre mp ((a, b), ((c, d), (f, g))) e =
    let first = first_word mp in
    let second = second_word mp in
    let ws : Option Precoding → List ℕ = λ h. first ∷ second ∷ (coefficients h ++ 0 ∷ []) in
    let sent = a ∷ b ∷ c ∷ d ∷ f ∷ g ∷ 0 ∷ [] in
    ap (λ h. words_at_end (pre ++ sequence (ws h)) 3) e
    ∙ words_at_end-blocks pre (first ∷ second ∷ a ∷ b ∷ c ∷ []) d
        (f ∷ g ∷ 0 ∷ crc (flat_bits (first ∷ second ∷ sent)) ∷ []) refl

find-type :
    (pre : List Bool) (mp : Mp) (h : Option Precoding)
    → IsMp mp
    → mp.precoding ≡ h
    → find (pre ++ sequence (words mp)) ≡ some mp
unfolding find
find-type pre mp none ok e =
    let all = pre ++ sequence (words mp) in
    let n : length (words mp) ≡ 3 = length-words mp ∙ ap word_count e in
    let found : words_at_end all 3 ≡ some (words mp) =
      ap (words_at_end all) (sym n) ∙ words_at_end-sequence pre (words mp) (words-IsWord mp ok) in
    ap (λ w. or_else (try_words 4 w) (try_words 10 (words_at_end all 9))) found
    ∙ ap (λ o. or_else o (try_words 10 (words_at_end all 9)))
        (try_words-words 4 mp ok (sym (ap is_some e)))
find-type pre mp (some h) ok e =
    let all = pre ++ sequence (words mp) in
    let n : length (words mp) ≡ 9 = length-words mp ∙ ap word_count e in
    let found : words_at_end all 9 ≡ some (words mp) =
      ap (words_at_end all) (sym n) ∙ words_at_end-sequence pre (words mp) (words-IsWord mp ok) in
    ap₂ (λ v w. or_else (try_words 4 v) (try_words 10 w)) (type_0-none pre mp h e) found
    ∙ try_words-words 10 mp ok (sym (ap is_some e))

-- Whatever came before, when the window ends with the last bit of the CRC of an MP whose fields are
-- in range, that bit finds the MP with all its fields, of type 0 and of type 1, and empties the window.
pub push-sequence :
    (d : Deframer) (bit : Bool) (pre : List Bool) (mp : Mp)
    → IsMp mp
    → slide d.window bit ≡ pre ++ sequence (words mp)
    → ((push d bit).1 ≡ some mp) × ((push d bit).0.window ≡ [])
unfolding push
push-sequence d bit pre mp ok e =
    let found : find (slide d.window bit) ≡ some mp =
      ap find e ∙ find-type pre mp mp.precoding ok refl in
    (found, ap (cleared (slide d.window bit)) found)
