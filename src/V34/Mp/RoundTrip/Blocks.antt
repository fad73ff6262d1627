-- ===== src/V34/Mp/RoundTrip/Blocks.antt =====
-- The words of a sequence of mp.rs, as bits and read back.
use softmodem_rs.Prelude.{
  ℕ, zero, suc, ◌+◌, ◌-◌, ◌*◌, ◌^◌, ◌<◌, ◌≡◌, refl, ap, sym, ◌∙◌, Bool, true, false, none, some,
  List, [], ◌∷◌, ◌++◌, ◌==◌, ◌&&◌, ltb, leb, le→leb, All, All-append, drop, take_prefix,
  drop_prefix, length, length-append, replicate, append_assoc, append-nil, arith,
}
use softmodem_rs.V34.Bits.{crc}
use softmodem_rs.V34.Bits.RoundTrip.{crc-own, crc-lt, number-field, length-field_from}
use softmodem_rs.V34.Mp.{
  sync_ones, word_bits, flat_bits, blocks, sequence, all_ones, read_blocks, words_at_end, read_tail,
  checked, but_last,
}

abbrev pub IsWord : ℕ → Type 0
IsWord w = w < 2 ^ 16

flat_bits-snoc : (ws : List ℕ) (c : ℕ) → flat_bits (ws ++ c ∷ []) ≡ flat_bits ws ++ word_bits c
unfolding flat_bits
flat_bits-snoc [] c = append-nil (word_bits c)
flat_bits-snoc (w ∷ ws) c =
    ap (λ l. word_bits w ++ l) (flat_bits-snoc ws c)
    ∙ sym (append_assoc (word_bits w) (flat_bits ws) (word_bits c))

length-blocks : (ws : List ℕ) → length (blocks ws) ≡ length ws * 17
unfolding blocks
length-blocks [] = refl
length-blocks (w ∷ ws) =
    omega
      (arith, length-append (word_bits w) (blocks ws), length-field_from w 0 16, length-blocks ws)

read_blocks-blocks : (ws : List ℕ) → All IsWord ws → read_blocks (length ws) (blocks ws) ≡ some ws
unfolding read_blocks blocks
read_blocks-blocks [] h = refl
read_blocks-blocks (w ∷ ws) (h, hs) = rw (
  take_prefix 16 (word_bits w) (blocks ws) (length-field_from w 0 16),
  drop_prefix 16 (word_bits w) (blocks ws) (length-field_from w 0 16),
  number-field w 16 h,
  read_blocks-blocks ws hs,
)

but_last-snoc : (ws : List ℕ) (c : ℕ) → but_last (ws ++ c ∷ []) ≡ ws
but_last-snoc [] c = refl
but_last-snoc (w ∷ []) c = refl
but_last-snoc (w ∷ v ∷ ws) c = ap (λ l. w ∷ l) (but_last-snoc (v ∷ ws) c)

abbrev with_crc : List ℕ → List ℕ
with_crc ws = ws ++ crc (flat_bits ws) ∷ []

checked-with_crc : (ws : List ℕ) → checked (some (with_crc ws)) ≡ some ws
checked-with_crc ws =
    let zero_crc : crc (flat_bits (with_crc ws)) ≡ 0 =
      ap crc (flat_bits-snoc ws (crc (flat_bits ws))) ∙ crc-own (flat_bits ws) in
    let some_words = length-append ws (crc (flat_bits ws) ∷ []) in
    let both : ((crc (flat_bits (with_crc ws)) == 0) && ltb 0 (length (with_crc ws))) ≡ true =
      ground arith in
    rw (both, but_last-snoc ws (crc (flat_bits ws)))

drop_tail :
    (n : ℕ) (pre xs : List Bool) → length xs ≡ n → drop (length (pre ++ xs) - n) (pre ++ xs) ≡ xs
drop_tail n pre xs e =
    drop_prefix (length (pre ++ xs) - n) pre xs (omega (arith, length-append pre xs))

all_ones-replicate : (n : ℕ) → all_ones (replicate n true) ≡ true
all_ones-replicate zero = refl
all_ones-replicate (suc n) = all_ones-replicate n

length-sequence : (ws : List ℕ) → length (sequence ws) ≡ 17 + (length ws + 1) * 17
unfolding sequence
length-sequence ws = omega (
  arith,
  length-append (replicate 17 true) (blocks (with_crc ws)),
  length-blocks (with_crc ws),
  length-append ws (crc (flat_bits ws) ∷ []),
)

words_at_end-tail :
    (n : ℕ) (pre xs : List Bool)
    → length xs ≡ 17 + (n + 1) * 17
    → words_at_end (pre ++ xs) n ≡ read_tail n xs
unfolding words_at_end
words_at_end-tail n pre xs e =
    let fits : leb (17 + (n + 1) * 17) (length (pre ++ xs)) ≡ true =
      le→leb _ _ (omega (arith, length-append pre xs)) in
    rw (fits, drop_tail (17 + (n + 1) * 17) pre xs e)

read_tail-sequence : (ws : List ℕ) → All IsWord ws → read_tail (length ws) (sequence ws) ≡ some ws
unfolding read_tail sequence
read_tail-sequence ws h =
    let more : length ws + 1 ≡ length (with_crc ws) =
      sym (length-append ws (crc (flat_bits ws) ∷ [])) in
    let good = All-append IsWord ws (crc (flat_bits ws) ∷ []) h (crc-lt (flat_bits ws), tt) in
    ap (λ n. checked (read_blocks n (blocks (with_crc ws)))) more
    ∙ ap checked (read_blocks-blocks (with_crc ws) good)
    ∙ checked-with_crc ws

pub words_at_end-sequence :
    (pre : List Bool) (ws : List ℕ)
    → All IsWord ws
    → words_at_end (pre ++ sequence ws) (length ws) ≡ some ws
words_at_end-sequence pre ws h =
    words_at_end-tail (length ws) pre (sequence ws) (length-sequence ws) ∙ read_tail-sequence ws h

read_tail-block : (y : ℕ) (ys : List ℕ) → read_tail 3 (blocks (y ∷ ys)) ≡ none
unfolding read_tail blocks
read_tail-block y ys = refl

blocks-append : (xs ys : List ℕ) → blocks (xs ++ ys) ≡ blocks xs ++ blocks ys
unfolding blocks
blocks-append [] ys = refl
blocks-append (x ∷ xs) ys =
    ap (λ l. false ∷ (word_bits x ++ l)) (blocks-append xs ys)
    ∙ ap (λ l. false ∷ l) (sym (append_assoc (word_bits x) (blocks xs) (blocks ys)))

-- Five blocks at the end do not start with a sync, since each starts with a 0.
pub words_at_end-blocks :
    (pre : List Bool) (xs : List ℕ) (y : ℕ) (ys : List ℕ)
    → length ys ≡ 4
    → words_at_end (pre ++ (replicate sync_ones true ++ blocks (xs ++ y ∷ ys))) 3 ≡ none
words_at_end-blocks pre xs y ys e =
    let ones = replicate sync_ones true in
    let tail = blocks (y ∷ ys) in
    let split : pre ++ (ones ++ blocks (xs ++ y ∷ ys)) ≡ ((pre ++ ones) ++ blocks xs) ++ tail =
      ap (λ l. pre ++ (ones ++ l)) (blocks-append xs (y ∷ ys))
      ∙ sym (append_assoc pre ones (blocks xs ++ tail))
      ∙ sym (append_assoc (pre ++ ones) (blocks xs) tail) in
    ap (λ l. words_at_end l 3) split
    ∙ words_at_end-tail 3 ((pre ++ ones) ++ blocks xs) tail (omega (arith, length-blocks (y ∷ ys)))
    ∙ read_tail-block y ys
