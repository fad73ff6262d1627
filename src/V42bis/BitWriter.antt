-- ===== src/V42bis/BitWriter.antt =====
-- `BitWriter` of v42bis.rs: packs codewords of varying width, least significant bit first.
use softmodem_rs.Prelude.{
  ℕ, zero, suc, ◌+◌, ◌-◌, ◌*◌, ◌/◌, ◌%◌, ◌^◌, List, [], ◌∷◌, ◌++◌, Bool, ◌==◌, ltb, leb,
  if◌then◌else◌, bit_or,
}

pub record BitWriter : Type 0 where
  pub bits : ℕ
  pub count : ℕ
  pub out : List ℕ

-- The loop of `put`: one turn for each octet that is full.
unfoldable pub emit : ℕ → BitWriter → BitWriter
emit zero w = w
emit (suc fuel) w =
    let w' : BitWriter = record {
      bits = w.bits / 2 ^ 8;
      count = w.count - 8;
      out = w.out ++ (w.bits % 2 ^ 8) ∷ [];
    } in
    let rest = emit fuel w' in if leb 8 w.count then rest else w

-- `|=` of a shift in 32 bits; the turns are the number of full octets.
unfoldable pub put : BitWriter → ℕ → ℕ → BitWriter
unfolding emit
put w value width =
    let w' : BitWriter = record {
      bits = bit_or w.bits (value * 2 ^ w.count % 2 ^ 32);
      count = w.count + width;
      out = w.out;
    } in
    emit (w'.count / 8) w'

abbrev pub aligned : BitWriter → Bool
aligned w = w.count == 0

unfoldable pub align : BitWriter → BitWriter
unfolding put
align w = if ltb 0 w.count then put w 0 (8 - w.count) else w
