-- ===== src/V34/Reader.antt =====
-- softmodem-dsp/src/v34/bits.rs: what is read from a Reader one after the other, in `do` blocks.
pub mod RoundTrip
use softmodem_rs.Prelude.{ℕ, zero, suc, Bool, List, [], ◌∷◌, ◌==◌}
use softmodem_rs.V34.Bits.{read_field}

-- A value, and the bits that are left.
abbrev pub Reader : Type 0 → Type 0
Reader A = List Bool → A × List Bool

infixl 5 ◌>>=◌
unfoldable pub ◌>>=◌ : {A B : Type 0} → Reader A → (A → Reader B) → Reader B
(m >>= f) bits = let (a, rest) = m bits in f a rest

unfoldable pub give : {A : Type 0} → A → Reader A
give a bits = (a, bits)

-- `Reader::field`
unfoldable pub number : ℕ → Reader ℕ
unfolding read_field
number width bits = read_field bits width

-- `Reader::flag`
unfoldable pub flag : Reader Bool
unfolding read_field
flag bits = let (value, rest) = read_field bits 1 in (value == 1, rest)

-- The same reader a number of times.
unfoldable pub times : {A : Type 0} → ℕ → Reader A → Reader (List A)
times zero m = give []
times (suc n) m = do a ← m; more ← times n m; give (a ∷ more)
