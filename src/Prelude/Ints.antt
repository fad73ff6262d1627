-- ===== src/Prelude/Ints.antt =====
-- The integers over the native numbers, with the library's constructors.
use Prim.Native.Nat.{ℕ}

pub data ℤ : Type 0 where
  pos : ℕ → ℤ
  negsuc : ℕ → ℤ
