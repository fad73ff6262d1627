-- ===== src/Transport/Alaw.antt =====
-- softmodem-transport/src/alaw.rs: G.711 A-law. A sample is an integer, of 16 bits in the source.
pub mod Error
use softmodem_rs.Prelude.Ints.{ℤ, pos, negsuc}
use softmodem_rs.Prelude.{
  ℕ, zero, suc, ◌+◌, ◌-◌, ◌*◌, ◌/◌, ◌%◌, ◌^◌, ◌≤◌, ◌<◌, Bool, Option, none, some, List, [], ◌∷◌,
  ◌==◌, ltb, leb, if◌then◌else◌, bit_xor,
}

-- `negsuc n` is `-(n + 1)`.
abbrev pub negate : ℕ → ℤ
negate zero = pos 0
negate (suc n) = negsuc n

abbrev pub segment_ends : List ℕ
segment_ends = 0x1F ∷ 0x3F ∷ 0x7F ∷ 0xFF ∷ 0x1FF ∷ 0x3FF ∷ 0x7FF ∷ 0xFFF ∷ []

-- `position`, from an index on.
unfoldable pub segment_from : ℕ → List ℕ → ℕ → Option ℕ
segment_from i [] value = none
segment_from i (end ∷ ends) value =
    let rest = segment_from (i + 1) ends value in if leb value end then some i else rest

-- What `encode` does once it has the magnitude and the mask of the sign.
unfoldable pub encode_magnitude : ℕ → ℕ → ℕ
unfolding segment_from
encode_magnitude value mask = elim (segment_from 0 segment_ends value) [
  | none ↦ bit_xor 0x7F mask
  | some segment ↦
      let shift = if ltb segment 2 then 1 else segment in
      bit_xor (segment * 2 ^ 4 + value / 2 ^ shift % 2 ^ 4) mask
]

-- `>> 3` rounds down, so that `-value - 1` of a negative sample is `n / 8`.
unfoldable pub encode : ℤ → ℕ
unfolding encode_magnitude
encode (pos n) = encode_magnitude (n / 2 ^ 3) 0xD5
encode (negsuc n) = encode_magnitude (n / 2 ^ 3) 0x55

unfoldable pub magnitude : ℕ → ℕ
magnitude code =
    let segment = code / 2 ^ 4 % 2 ^ 3 in
    let step = code % 2 ^ 4 * 2 ^ 4 in
    if segment == 0 then step + 8 else (step + 0x108) * 2 ^ (segment - 1)

unfoldable pub decode : ℕ → ℤ
unfolding magnitude
decode byte =
    let code = bit_xor byte 0x55 in
    if code / 2 ^ 7 % 2 == 0 then negate (magnitude code) else pos (magnitude code)
