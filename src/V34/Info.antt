-- ===== src/V34/Info.antt =====
-- softmodem-dsp/src/v34/info.rs: INFO sequences, framed and found.
pub mod Fields
pub mod Framing
pub mod RoundTrip
use softmodem_rs.Prelude.{
  ℕ, zero, suc, ◌+◌, Bool, true, false, not, ◌&&◌, ◌||◌, Option, none, some, List, [], ◌∷◌, ◌++◌,
  ◌==◌, ltb, if◌then◌else◌, take, drop, length,
}
use softmodem_rs.V34.Bits.{crc, field_from}

-- A kind of INFO sequence: how many bits its fields take, and how they are written and read.
pub record Info (T : Type 0) : Type 0 where
  pub field_count : ℕ
  pub fields : T → List Bool
  pub from_fields : List Bool → Option T

abbrev pub fill : List Bool
fill = true ∷ true ∷ true ∷ true ∷ []

abbrev pub header : List Bool
header = false ∷ true ∷ true ∷ true ∷ false ∷ false ∷ true ∷ false ∷ []

abbrev pub crc_length : ℕ
crc_length = 16

unfoldable pub frame : {T : Type 0} → Info T → T → List Bool
unfolding crc field_from
frame info x =
    let fields = info.fields x in fill ++ header ++ fields ++ field_from (crc fields) 0 16 ++ fill

pub record Deframer : Type 0 where
  pub window : List Bool

unfoldable pub new : Deframer
new = record { window = [] }

abbrev same_bit : Bool → Bool → Bool
same_bit true b = b
same_bit false b = not b

-- `eq` of the first bits and the header.
abbrev pub same_bits : List Bool → List Bool → Bool
same_bits [] [] = true
same_bits [] (y ∷ ys) = false
same_bits (x ∷ xs) [] = false
same_bits (x ∷ xs) (y ∷ ys) = same_bit x y && same_bits xs ys

abbrev pub whole_length : {T : Type 0} → Info T → ℕ
whole_length info = length header + info.field_count + crc_length

abbrev pub slide : ℕ → List Bool → Bool → List Bool
slide longest window bit =
    let bits = window ++ bit ∷ [] in if ltb longest (length bits) then drop 1 bits else bits

-- `push` on the window with the bit.
unfoldable pub examine : {T : Type 0} → Info T → List Bool → Deframer × Option T
unfolding crc
examine info bits =
    if ltb (length bits) (whole_length info)
      || not (same_bits (take 8 bits) header)
      || not (crc (drop 8 bits) == 0)
    then (record { window = bits }, none)
    else (record { window = [] }, info.from_fields (take info.field_count (drop 8 bits)))

unfoldable pub push : {T : Type 0} → Info T → Deframer → Bool → Deframer × Option T
unfolding examine
push info d bit = examine info (slide (whole_length info) d.window bit)
