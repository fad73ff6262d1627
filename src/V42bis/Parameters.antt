-- ===== src/V42bis/Parameters.antt =====
-- `Parameters` of v42bis.rs: what the two ends agree on.
use softmodem_rs.Prelude.{ℕ, zero, suc, ◌+◌, ◌-◌, ◌/◌, min, Bool, ◌&&◌, leb, ◌==◌, if◌then◌else◌}

abbrev pub min_codewords : ℕ
min_codewords = 512

abbrev pub min_string : ℕ
min_string = 6

abbrev pub max_string_limit : ℕ
max_string_limit = 250

pub record Parameters : Type 0 where
  pub codewords : ℕ
  pub max_string : ℕ

abbrev pub valid : Parameters → Bool
valid p =
    leb min_codewords p.codewords
    && leb min_string p.max_string
    && leb p.max_string max_string_limit

-- `u16::BITS - n.leading_zeros()`, the number of significant bits: `bits` bounds it.
unfoldable pub bit_length : ℕ → ℕ → ℕ
bit_length zero n = 0
bit_length (suc bits) n = let rest = bit_length bits (n / 2) in if n == 0 then 0 else 1 + rest

unfoldable pub max_bits : Parameters → ℕ
unfolding bit_length
max_bits p = bit_length 16 (p.codewords - 1)

abbrev pub default : Parameters
default = record { codewords = min_codewords; max_string = min_string }

abbrev pub lower : Parameters → Parameters → Parameters
lower a b = record {
  codewords = min a.codewords b.codewords;
  max_string = min a.max_string b.max_string;
}
