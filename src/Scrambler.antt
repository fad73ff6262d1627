-- ===== src/Scrambler.antt =====
-- softmodem-dsp/src/scrambler.rs: the self-synchronising scramblers of V.22 and V.34.
pub mod Synchronisation
use softmodem_rs.Prelude.{
  ℕ, ◌+◌, ◌-◌, ◌*◌, ◌/◌, ◌%◌, ◌^◌, Bool, true, false, not, xor, ◌&&◌, List, [], ◌∷◌, ◌==◌, leb,
  if◌then◌else◌, bit_xor,
}

-- LOCKUP_ONES
abbrev pub lockup_ones : ℕ
lockup_ones = 64

pub record Polynomial : Type 0 where
  pub a : ℕ
  pub b : ℕ

abbrev pub v22 : Polynomial
v22 = record { a = 14; b = 17 }

abbrev pub v34_call : Polynomial
v34_call = record { a = 18; b = 23 }

abbrev pub v34_answer : Polynomial
v34_answer = record { a = 5; b = 23 }

unfoldable pub taps : Polynomial → ℕ → Bool
taps p history = bit_xor (history / 2 ^ (p.a - 1)) (history / 2 ^ (p.b - 1)) % 2 == 1

abbrev pub from_bool : Bool → ℕ
from_bool true = 1
from_bool false = 0

-- `history << 1` has 32 bits.
unfoldable pub shift : Polynomial → ℕ → Bool → ℕ
shift p history bit = (history * 2 % 2 ^ 32 + from_bool bit) % 2 ^ p.b

pub record Scrambler : Type 0 where
  pub polynomial : Polynomial
  pub history : ℕ
  pub ones : ℕ
  pub guard : Bool

-- `Scrambler::with`; `Scrambler::new` is `scrambler v22`.
unfoldable pub scrambler : Polynomial → Scrambler
scrambler p = record { polynomial = p; history = 0; ones = 0; guard = false }

unfoldable pub guard_against_lockup : Scrambler → Scrambler
guard_against_lockup s = record s { guard = true }

-- The first statement of `scramble`: the count and the input after the guard.
unfoldable pub guarded : Scrambler → Bool → ℕ × Bool
guarded s bit = if s.guard && leb lockup_ones s.ones then (0, not bit) else (s.ones, bit)

unfoldable pub scramble : Scrambler → Bool → Scrambler × Bool
unfolding guarded
scramble s bit =
    let (ones, bit') = guarded s bit in
    let out = xor bit' (taps s.polynomial s.history) in
    (
      record s { history = shift s.polynomial s.history out; ones = if out then ones + 1 else 0 },
      out,
    )

pub record Descrambler : Type 0 where
  pub polynomial : Polynomial
  pub history : ℕ

-- `Descrambler::with`; `Descrambler::new` is `descrambler v22`.
unfoldable pub descrambler : Polynomial → Descrambler
descrambler p = record { polynomial = p; history = 0 }

unfoldable pub descramble : Descrambler → Bool → Descrambler × Bool
descramble d bit =
    (record d { history = shift d.polynomial d.history bit }, xor bit (taps d.polynomial d.history))

-- The streams, bit by bit.
unfoldable pub scramble_all : Scrambler → List Bool → List Bool
scramble_all s [] = []
scramble_all s (bit ∷ bits) = let (s', out) = scramble s bit in out ∷ scramble_all s' bits

unfoldable pub descramble_all : Descrambler → List Bool → List Bool
descramble_all d [] = []
descramble_all d (bit ∷ bits) = let (d', out) = descramble d bit in out ∷ descramble_all d' bits
