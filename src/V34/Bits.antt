-- ===== src/V34/Bits.antt =====
-- softmodem-dsp/src/v34/bits.rs: fields that go least significant bit first, and their CRC.
pub mod RoundTrip
use softmodem_rs.Prelude.{
  ℕ, zero, suc, ◌+◌, ◌*◌, ◌/◌, ◌%◌, ◌^◌, Bool, true, false, xor, List, [], ◌∷◌, ◌++◌, ◌==◌,
  if◌then◌else◌, take, drop, bit_xor,
}

abbrev pub crc_polynomial : ℕ
crc_polynomial = 0x8408

-- One bit of the `fold` of `crc`.
unfoldable pub crc_step : ℕ → Bool → ℕ
crc_step r bit =
    let shifted = r / 2 in if xor (r % 2 == 1) bit then bit_xor shifted crc_polynomial else shifted

unfoldable pub crc_from : ℕ → List Bool → ℕ
crc_from r [] = r
crc_from r (bit ∷ bits) = crc_from (crc_step r bit) bits

unfoldable pub crc : List Bool → ℕ
unfolding crc_from crc_step
crc bits = crc_from 0xFFFF bits

-- `(n..n + width).map(|n| value >> n & 1 == 1)`
unfoldable pub field_from : ℕ → ℕ → ℕ → List Bool
field_from value n zero = []
field_from value n (suc width) = (value / 2 ^ n % 2 == 1) ∷ field_from value (suc n) width

-- `Writer::field` and `Writer::flag`, on the bits that the writer holds.
unfoldable pub field : List Bool → ℕ → ℕ → List Bool
unfolding field_from
field bits value width = bits ++ field_from value 0 width

abbrev pub flag : List Bool → Bool → List Bool
flag bits value = bits ++ value ∷ []

abbrev pub from_bool : Bool → ℕ
from_bool true = 1
from_bool false = 0

-- The fold from the last bit to the first.
unfoldable pub number : List Bool → ℕ
number [] = 0
number (bit ∷ bits) = number bits * 2 + from_bool bit

-- `Reader::field`: the value, and the bits that are left.
unfoldable pub read_field : List Bool → ℕ → ℕ × List Bool
unfolding number
read_field bits width = (number (take width bits), drop width bits)
