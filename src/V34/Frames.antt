-- ===== src/V34/Frames.antt =====
-- softmodem-dsp/src/v34/framing.rs: the mapping parameters of a symbol rate and a data rate. The source
-- computes 1.25 times the eighth root of 2 ^ k, rounded, in floating point; it is the argument
-- `rounded`, a function of k.
pub mod Parameters
pub mod High
use softmodem_rs.Prelude.{
  ℕ, zero, suc, ◌+◌, ◌-◌, ◌*◌, ◌/◌, ◌%◌, ◌^◌, max, Bool, true, false, not, ◌&&◌, ◌||◌, Option, none,
  some, ◌==◌, ltb, leb, if◌then◌else◌,
}
use softmodem_rs.Prelude.Maybe.{◌>>=◌}
use softmodem_rs.V34.Info.Fields.{SymbolRate, s2400, s2743, s2800, s3000, s3200, s3429}

pub record Framing : Type 0 where
  pub symbol_rate : SymbolRate
  pub bit_rate : ℕ
  pub j : ℕ
  pub p : ℕ
  pub b : ℕ
  pub r : ℕ
  pub k : ℕ
  pub q : ℕ
  pub rings : ℕ
  pub points : ℕ

abbrev pub rates : SymbolRate → ℕ × ℕ
rates s2400 = (2400, 21600)
rates s2743 = (4800, 26400)
rates s2800 = (4800, 26400)
rates s3000 = (4800, 28800)
rates s3200 = (4800, 31200)
rates s3429 = (4800, 33600)

-- J and P.
abbrev pub counts : SymbolRate → ℕ × ℕ
counts s2400 = (7, 12)
counts s2743 = (8, 12)
counts s2800 = (7, 14)
counts s3000 = (7, 15)
counts s3200 = (7, 16)
counts s3429 = (8, 15)

abbrev pub div_ceil : ℕ → ℕ → ℕ
div_ceil n d = (n + d - 1) / d

-- K and q for b.
abbrev pub bits : ℕ → ℕ × ℕ
bits b = if leb b 12 then (0, 0) else let q = div_ceil (b - 12 - 31) 8 in (b - 12 - 8 * q, q)

-- `find` on `count` numbers from the first on.
unfoldable pub find : ℕ → ℕ → (ℕ → Bool) → Option ℕ
find zero first test = none
find (suc count) first test =
    let rest = find count (suc first) test in if test first then some first else rest

unfoldable pub ring_counts : (ℕ → ℕ) → ℕ → Option (ℕ × ℕ)
unfolding find
ring_counts rounded k = do
  minimum ← find 18 1 (λ m. leb (2 ^ k) (m ^ 8))
  larger ← find 18 1 (λ m. leb (rounded k) m)
  some (minimum, max larger minimum)

abbrev pub chosen : Bool → ℕ × ℕ → ℕ
chosen expanded (minimum, larger) = if expanded then larger else minimum

-- The mapping for the bits of a data frame.
abbrev pub framing : SymbolRate → ℕ → ℕ → ℕ → ℕ → ℕ → Framing
framing rate bit_rate j p n rings =
    let b = div_ceil n p in
    let (k, q) = bits b in
    record {
      symbol_rate = rate;
      bit_rate = bit_rate;
      j = j;
      p = p;
      b = b;
      r = n - (b - 1) * p;
      k = k;
      q = q;
      rings = rings;
      points = 4 * rings * 2 ^ q;
    }

unfoldable pub new : (ℕ → ℕ) → SymbolRate → ℕ → Bool → Option Framing
unfolding ring_counts
new rounded rate bit_rate expanded =
    let (low, high) = rates rate in
    let (j, p) = counts rate in
    let n = bit_rate * 28 / 100 / j in
    if not (bit_rate % 2400 == 0) || not (leb low bit_rate && leb bit_rate high)
    then none
    else (ring_counts rounded (bits (div_ceil n p)).0 >>= λ rings.
        some (framing rate bit_rate j p n (chosen expanded rings)))

unfoldable pub high : Framing → ℕ → Bool
high f frame = ltb (frame * f.r / f.p) ((frame + 1) * f.r / f.p)

-- The fold of `swp` over the first frames.
unfoldable pub swp_from : Framing → ℕ → ℕ
unfolding high
swp_from f zero = 0
swp_from f (suc frame) = (swp_from f frame * 2 + (if high f frame then 1 else 0)) % 2 ^ 16

unfoldable pub swp : Framing → ℕ
unfolding swp_from
swp f = swp_from f f.p

abbrev pub precoder_modulo : Framing → ℕ
precoder_modulo f = if ltb f.b 56 then 2 else 4
