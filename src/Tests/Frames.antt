-- ===== src/Tests/Frames.antt =====
-- The mapping parameters of V.34 at concrete inputs.
use softmodem_rs.Prelude.{ℕ, ◌+◌, ◌/◌, ◌≤◌, ◌≡◌, refl, true, some, min, arith}
use softmodem_rs.V34.Info.Fields.{s3200}
use softmodem_rs.V34.Frames.{Framing, new}
use softmodem_rs.V34.Frames.Parameters.{IsFraming, new-IsFraming}
use softmodem_rs.V34.Frames.High.{count_high, count_high-all}

-- A coarse root, with the bound that the rounded one has.
abbrev coarse : ℕ → ℕ
coarse k = min 18 (k / 2 + 3)

coarse-le : (k : ℕ) → k ≤ 31 → coarse k ≤ 18
coarse-le k h = omega arith

new-IsFraming_example : (f : Framing) × (new coarse s3200 28800 true ≡ some f) × IsFraming f
new-IsFraming_example =
    new-IsFraming coarse s3200 28800 true coarse-le refl (omega arith) (omega arith)

abbrev mapping : Framing
mapping = record {
  symbol_rate = s3200;
  bit_rate = 28800;
  j = 7;
  p = 16;
  b = 72;
  r = 16;
  k = 28;
  q = 4;
  rings = 12;
  points = 768;
}

abbrev uneven : Framing
uneven = record mapping { b = 66; r = 6; bit_rate = 26400 }

count_high-all_example : count_high uneven 16 ≡ 6
count_high-all_example = count_high-all uneven (omega arith) (omega arith)
