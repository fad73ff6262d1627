-- ===== src/Xid/Values.antt =====
-- Numbers in XID parameters: what is written is read back.
use softmodem_rs.Prelude.{
  ℕ, ◌/◌, ◌%◌, ◌^◌, ◌<◌, ◌≡◌, ap, ◌∙◌, some, [], ◌∷◌, ◌==◌, if◌then◌else◌, arith, bit_and, bit_or,
}
use softmodem_rs.Prelude.Bits.{bit_and-bit_or, bit_or-zero, bit_or-lt}
use softmodem_rs.Xid.{
  le32, be32, be16, minimal, number, le_number, required_functions, other_functions,
}

minimal_four :
    (a b c d : ℕ)
    → minimal (a ∷ b ∷ c ∷ d ∷ []) ≡ (
        if a == 0
        then if b == 0 then if c == 0 then d ∷ [] else c ∷ d ∷ [] else b ∷ c ∷ d ∷ []
        else a ∷ b ∷ c ∷ d ∷ [])
unfolding minimal
minimal_four a b c d = ground arith

-- A number below 2 ^ 32 without its leading zero octets.
pub number-minimal : (n : ℕ) → n < 2 ^ 32 → number (minimal (be32 n)) ≡ some n
unfolding number
number-minimal n h =
    rw (minimal_four (n / 16777216 % 256) (n / 65536 % 256) (n / 256 % 256) (n % 256))
      (ground arith)

pub number-be16 : (n : ℕ) → n < 65536 → number (be16 n) ≡ some n
unfolding number
number-be16 n h = ground arith

pub number-octet : (n : ℕ) → n < 256 → number (n ∷ []) ≡ some n
unfolding number
number-octet n h = ground arith

pub le_number-le32 : (n : ℕ) → n < 2 ^ 32 → le_number 4 (le32 n) ≡ n
unfolding le_number
le_number-le32 n h = omega arith

-- The functions that every XID sets are added by the writer and taken off by the reader.
pub functions_round :
    (f : ℕ)
    → f < 2 ^ 32
    → bit_and f other_functions ≡ f
    → bit_and (le_number 4 (le32 (bit_or f required_functions))) other_functions ≡ f
functions_round f h e =
    ap (λ t. bit_and t other_functions)
      (le_number-le32 _ (bit_or-lt 32 f required_functions h (omega arith)))
    ∙ bit_and-bit_or f required_functions other_functions
    ∙ bit_or-zero (bit_and f other_functions)
    ∙ e
