-- ===== src/Hdlc/Stuffing.antt =====
-- Zero-bit insertion and removal in hdlc.rs.
use softmodem_rs.Prelude.{
  ℕ, ◌+◌, ◌≤◌, ◌<◌, ◌≡◌, refl, ap, ◌∙◌, Bool, true, false, List, [], ◌∷◌, ◌++◌, ◌==◌, if◌then◌else◌,
  arith, Option, none, length, length-append, append_assoc, append-nil, inl, inr, Bool-cases,
}
use mathlib.Core.List.{foldl}
use softmodem_rs.Hdlc.{
  Stuffer, octet_bits, push_bit, push_octets, Deframer, push, push_all, gather, max_bits,
}

-- The bits of octets in the order in which they are sent.
abbrev pub bits_of : List ℕ → List Bool
bits_of [] = []
bits_of (b ∷ bytes) = octet_bits b ++ bits_of bytes

-- `xs` with a 0 after every fifth 1 in a row, where `ones` 1s came before.
pub stuffed : ℕ → List Bool → List Bool
stuffed ones [] = []
stuffed ones (false ∷ xs) = false ∷ stuffed 0 xs
stuffed ones (true ∷ xs) =
    let rest = stuffed 0 xs in
    let more = stuffed (ones + 1) xs in if ones == 4 then true ∷ false ∷ rest else true ∷ more

-- The 1s that the receiver has counted after `stuffed ones xs`.
pub counted : ℕ → List Bool → ℕ
counted ones [] = ones
counted ones (false ∷ xs) = counted 0 xs
counted ones (true ∷ xs) =
    let rest = counted 0 xs in let more = counted (ones + 1) xs in if ones == 4 then rest else more

pub counted-lt : (ones : ℕ) (xs : List Bool) → ones < 5 → counted ones xs < 5
unfolding counted
counted-lt ones [] h = h
counted-lt ones (false ∷ xs) h = counted-lt 0 xs (omega arith)
counted-lt ones (true ∷ xs) h = ground (arith, counted-lt 0 xs, counted-lt (ones + 1) xs)

push_bit_fifth :
    (out : List Bool) (ones : ℕ)
    → (ones == 4) ≡ true
    → push_bit (record { out = out; ones = ones }) true
      ≡ record { out = (out ++ true ∷ []) ++ false ∷ []; ones = 0 }
unfolding push_bit
push_bit_fifth out ones e = ground arith

push_bit_other :
    (out : List Bool) (ones : ℕ)
    → (ones == 4) ≡ false
    → push_bit (record { out = out; ones = ones }) true
      ≡ record { out = out ++ true ∷ []; ones = ones + 1 }
unfolding push_bit
push_bit_other out ones e = ground arith

push_bit_zero :
    (out : List Bool) (ones : ℕ)
    → push_bit (record { out = out; ones = ones }) false
      ≡ record { out = out ++ false ∷ []; ones = 0 }
unfolding push_bit
push_bit_zero out ones = refl

push_bits-out :
    (out : List Bool) (ones : ℕ) (xs : List Bool)
    → ones < 5
    → foldl push_bit (record { out = out; ones = ones }) xs
      ≡ record { out = out ++ stuffed ones xs; ones = counted ones xs }
unfolding stuffed counted
push_bits-out out ones [] h = rw append-nil
push_bits-out out ones (false ∷ xs) h =
    rw (push_bit_zero out ones)
      (push_bits-out (out ++ false ∷ []) 0 xs (omega arith) ∙ simp append_assoc)
push_bits-out out ones (true ∷ xs) h = elim (Bool-cases (ones == 4)) [
  | inl e ↦
      rw (push_bit_fifth out ones e, e)
        (push_bits-out ((out ++ true ∷ []) ++ false ∷ []) 0 xs (omega arith) ∙ simp append_assoc)
  | inr e ↦
      rw (push_bit_other out ones e, e)
        (push_bits-out (out ++ true ∷ []) (ones + 1) xs (ground arith) ∙ simp append_assoc)
]

push_octets-eq-foldl :
    (s : Stuffer) (bytes : List ℕ) → push_octets s bytes ≡ foldl push_bit s (bits_of bytes)
unfolding push_octets
push_octets-eq-foldl s [] = refl
push_octets-eq-foldl s (b ∷ bytes) = push_octets-eq-foldl (foldl push_bit s (octet_bits b)) bytes

-- The loop of `push_frame` over octets sends their bits with a 0 after every fifth 1.
pub push_octets-out :
    (out : List Bool) (bytes : List ℕ)
    → (push_octets (record { out = out; ones = 0 }) bytes).out ≡ out ++ stuffed 0 (bits_of bytes)
push_octets-out out bytes =
    rw (push_octets-eq-foldl (record { out = out; ones = 0 }) bytes)
      (ap (λ s. s.out) (push_bits-out out 0 (bits_of bytes) (omega arith)))

pub push_all-cons :
    (d d' : Deframer) (o : Option (List ℕ)) (bit : Bool) (bits : List Bool)
    → push d bit ≡ (d', o)
    → push_all d (bit ∷ bits) ≡ gather o (push_all d' bits)
unfolding push_all
push_all-cons d d' o bit bits e =
    ap (λ (p : Deframer × Option (List ℕ)). gather p.1 (push_all p.0 bits)) e

-- A deframer between an opening and a closing flag.
abbrev pub inside : ℕ → List Bool → ℕ → ℕ → ℕ → Deframer
inside min_content bits ones flags bad = record {
  min_content = min_content;
  bits = bits;
  ones = ones;
  is_open = true;
  flags_in_a_row = flags;
  bad_frames = bad;
}

module _ (m flags bad : ℕ) where
  pub push-inside_zero :
      (bits : List Bool) (ones : ℕ)
      → ones < 5
      → length bits + 1 ≤ max_bits
      → push (inside m bits ones flags bad) false
        ≡ (inside m (bits ++ false ∷ []) 0 flags bad, none)
  unfolding push
  push-inside_zero bits ones h k = ground (arith, length-append bits (false ∷ []))

  push-inside_five :
      (bits : List Bool)
      → push (inside m bits 5 flags bad) false ≡ (inside m bits 0 flags bad, none)
  unfolding push
  push-inside_five bits = refl

  pub push-inside_one :
      (bits : List Bool) (ones : ℕ)
      → ones < 6
      → push (inside m bits ones flags bad) true
        ≡ (inside m (bits ++ true ∷ []) (ones + 1) flags bad, none)
  unfolding push
  push-inside_one bits ones h = ground arith

  -- Zero-bit removal undoes zero-bit insertion, whatever follows.
  pub push_all-stuffed :
      (xs : List Bool) (bits : List Bool) (ones : ℕ) (rest : List Bool)
      → ones < 5
      → length bits + length xs ≤ max_bits
      → push_all (inside m bits ones flags bad) (stuffed ones xs ++ rest)
        ≡ push_all (inside m (bits ++ xs) (counted ones xs) flags bad) rest
  unfolding stuffed counted
  push_all-stuffed [] bits ones rest h k = rw append-nil
  push_all-stuffed (false ∷ xs) bits ones rest h k =
      push_all-cons _ _ none false _ (push-inside_zero bits ones h (omega arith))
      ∙ push_all-stuffed xs (bits ++ false ∷ []) 0 rest (omega arith)
          (omega (arith, length-append bits (false ∷ [])))
      ∙ simp append_assoc
  push_all-stuffed (true ∷ xs) bits ones rest h k = elim (Bool-cases (ones == 4)) [
    | inl e ↦
        let fifth : ones + 1 ≡ 5 = ground arith in
        rw e (
          push_all-cons _ _ none true _ (push-inside_one bits ones (omega arith))
          ∙ rw fifth (
              push_all-cons _ _ none false _ (push-inside_five (bits ++ true ∷ []))
              ∙ push_all-stuffed xs (bits ++ true ∷ []) 0 rest (omega arith)
                  (omega (arith, length-append bits (true ∷ [])))
              ∙ simp append_assoc))
    | inr e ↦ rw e (
        push_all-cons _ _ none true _ (push-inside_one bits ones (omega arith))
        ∙ push_all-stuffed xs (bits ++ true ∷ []) (ones + 1) rest (ground arith)
            (omega (arith, length-append bits (true ∷ [])))
        ∙ simp append_assoc)
  ]
