-- ===== src/Transport/Alaw/Error.antt =====
-- What A-law does to a sample, and that it does nothing to its own values.
use softmodem_rs.Prelude.{
  ℕ, ◌+◌, ◌-◌, ◌*◌, ◌/◌, ◌%◌, ◌^◌, ◌≤◌, ◌<◌, ◌≡◌, ◌⊎◌, refl, Bool, true, ◌&&◌, ◌||◌, ◌==◌, ==_iff,
  leb, max, bit_xor, arith, holds_below, holds_below-true,
}
use softmodem_rs.Prelude.Ints.{ℤ, pos, negsuc}
use softmodem_rs.Transport.Alaw.{negate, segment_from, encode_magnitude, encode, magnitude, decode}

codes_table : holds_below 256 (λ code. encode (decode code) == code) ≡ true
unfolding holds_below encode encode_magnitude segment_from decode magnitude
codes_table = refl

-- Every code's value is encoded as that code again.
pub encode-decode : (code : ℕ) → code < 256 → encode (decode code) ≡ code
encode-decode code h = (==_iff _ code).0 (holds_below-true 256 _ code codes_table h)

abbrev pub size : ℤ → ℕ
size (pos n) = n
size (negsuc n) = n + 1

abbrev pub distance : ℕ → ℕ → ℕ
distance a b = (a - b) + (b - a)

-- The magnitude that comes back for one of 4096.
abbrev returned : ℕ → ℕ
returned value = magnitude (bit_xor (encode_magnitude value 0xD5) 0x55)

abbrev is_close : ℕ → Bool
is_close value =
    let worst =
      max (distance (value * 8) (returned value)) (distance (value * 8 + 8) (returned value)) in
    leb worst 8 || leb (worst * 32) (value * 8)

close_table : holds_below 4096 is_close ≡ true
unfolding holds_below encode_magnitude segment_from magnitude
close_table = refl

abbrev is_signed : ℕ → Bool
is_signed value =
    let above = bit_xor (encode_magnitude value 0xD5) 0x55 in
    let below = bit_xor (encode_magnitude value 0x55) 0x55 in
    above / 2 ^ 7 % 2 == 1 && below / 2 ^ 7 % 2 == 0 && magnitude below == returned value

signed_table : holds_below 4096 is_signed ≡ true
unfolding holds_below encode_magnitude segment_from magnitude
signed_table = refl

-- The magnitude of the sample that is coded, with the sign of the other.
abbrev pub like : ℤ → ℕ → ℤ
like (pos n) m = pos m
like (negsuc n) m = negate m

abbrev pub number : ℤ → ℕ
number (pos n) = n
number (negsuc n) = n

decode-encode_value :
    (s : ℤ) → number s < 32768 → decode (encode s) ≡ like s (returned (number s / 8))
unfolding encode decode
decode-encode_value (pos n) h =
    ground (arith, holds_below-true 4096 is_signed (n / 8) signed_table (omega arith))
decode-encode_value (negsuc n) h =
    ground (arith, holds_below-true 4096 is_signed (n / 8) signed_table (omega arith))

close_between :
    (v m s : ℕ)
    → leb (max (distance (v * 8) m) (distance (v * 8 + 8) m)) 8
        || leb (max (distance (v * 8) m) (distance (v * 8 + 8) m) * 32) (v * 8)
      ≡ true
    → v * 8 ≤ s
    → s ≤ v * 8 + 8
    → (distance s m ≤ 8) ⊎ (distance s m * 32 ≤ s)
close_between v m s close lo hi = ground arith

-- A coded sample keeps its sign, and its size is off by 8 at most or by a 32nd of the size at most.
pub decode-encode :
    (s : ℤ)
    → number s < 32768
    → (m : ℕ) × (decode (encode s) ≡ like s m)
      × ((distance (size s) m ≤ 8) ⊎ (distance (size s) m * 32 ≤ size s))
decode-encode (pos n) h =
    let close = holds_below-true 4096 is_close (n / 8) close_table (omega arith) in
    (
      returned (n / 8),
      decode-encode_value (pos n) h,
      close_between (n / 8) (returned (n / 8)) n close (omega arith) (omega arith),
    )
decode-encode (negsuc n) h =
    let close = holds_below-true 4096 is_close (n / 8) close_table (omega arith) in
    (
      returned (n / 8),
      decode-encode_value (negsuc n) h,
      close_between (n / 8) (returned (n / 8)) (n + 1) close (omega arith) (omega arith),
    )
