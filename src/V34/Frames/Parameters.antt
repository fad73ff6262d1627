-- ===== src/V34/Frames/Parameters.antt =====
-- The mapping parameters of framing.rs fit together.
use softmodem_rs.Prelude.{
  ℕ, zero, suc, ◌+◌, ◌-◌, ◌*◌, ◌/◌, ◌%◌, ◌^◌, ◌≤◌, ◌<◌, ◌≡◌, refl, ap, subst, ◌⊎◌, Bool, true,
  false, not, ◌&&◌, ◌||◌, Option, none, some, leb, le→leb, leb→le, max, ◌==◌, if_cases, arith,
}
use native.Mathlib.Nat.{pow-le-pow_left, pow-le-pow_right}
use softmodem_rs.V34.Info.Fields.{SymbolRate, s2400, s2743, s2800, s3000, s3200, s3429}
use softmodem_rs.V34.Frames.{
  Framing, rates, counts, div_ceil, bits, find, ring_counts, chosen, framing, new,
}

-- The bits of a data frame as mapping frames of b and of b - 1 bits, the bits of a mapping frame as
-- those of the trellis, the shell mapper and the eight symbols, and rings enough for the shell mapper.
pub record IsFraming (f : Framing) : Type 0 where
  pub data_frame : (f.b - 1) * f.p + f.r ≡ f.bit_rate * 28 / 100 / f.j
  pub high_frames : (1 ≤ f.r) × (f.r ≤ f.p)
  pub mapping_frame : (f.b ≤ 12) × (f.k ≡ 0) × (f.q ≡ 0) ⊎ (f.b ≡ 12 + f.k + 8 * f.q)
  pub shell : f.k ≤ 31
  pub enough_rings : 2 ^ f.k ≤ f.rings ^ 8

abbrev found : Option ℕ → ℕ
found none = 0
found (some x) = x

find-holds : (count first m : ℕ) (test : ℕ → Bool) → find count first test ≡ some m → test m ≡ true
unfolding find
find-holds zero first m test e = absurd (ground arith)
find-holds (suc count) first m test e =
    if_cases (λ o. o ≡ some m → test m ≡ true) (test first) (some first)
      (find count (suc first) test) (λ t e'. subst (λ x. test x ≡ true) (ap found e') t)
      (λ t e'. find-holds count (suc first) m test e') e

find-some :
    (count first m : ℕ) (test : ℕ → Bool)
    → first ≤ m
    → m < first + count
    → test m ≡ true
    → (x : ℕ) × (find count first test ≡ some x)
unfolding find
find-some zero first m test le less t = absurd (omega arith)
find-some (suc count) first m test le less t =
    if_cases (λ o. (x : ℕ) × (o ≡ some x)) (test first) (some first) (find count (suc first) test)
      (λ here. (first, refl))
      (λ not_here. find-some count (suc first) m test (ground arith) (omega arith) t)

bits-mapping :
    (b : ℕ)
    → ((b ≤ 12) × ((bits b).0 ≡ 0) × ((bits b).1 ≡ 0)) ⊎ (b ≡ 12 + (bits b).0 + 8 * (bits b).1)
bits-mapping b = ground arith

bits-le : (b : ℕ) → (bits b).0 ≤ 31
bits-le b = ground arith

data_frame-counts :
    (rate : SymbolRate) (n : ℕ)
    → 1 ≤ n
    → let p = (counts rate).1 in
      let r = n - (div_ceil n p - 1) * p in ((div_ceil n p - 1) * p + r ≡ n) × (1 ≤ r) × (r ≤ p)
data_frame-counts s2400 n h = (omega arith, omega arith, omega arith)
data_frame-counts s2743 n h = (omega arith, omega arith, omega arith)
data_frame-counts s2800 n h = (omega arith, omega arith, omega arith)
data_frame-counts s3000 n h = (omega arith, omega arith, omega arith)
data_frame-counts s3200 n h = (omega arith, omega arith, omega arith)
data_frame-counts s3429 n h = (omega arith, omega arith, omega arith)

-- A mapping for these bits exists, with rings enough either way.
abbrev HasRings : ℕ → Option (ℕ × ℕ) → Type 0
HasRings k o =
    (minimum : ℕ) × (larger : ℕ) × (o ≡ some (minimum, larger))
    × (2 ^ k ≤ minimum ^ 8)
    × (2 ^ k ≤ larger ^ 8)

ring_counts-HasRings :
    (rounded : ℕ → ℕ) (k : ℕ) → k ≤ 31 → rounded k ≤ 18 → HasRings k (ring_counts rounded k)
unfolding ring_counts
ring_counts-HasRings rounded k small fits =
    let two_positive : 0 < 2 = omega arith in
    let most : 2 ^ k ≤ 18 ^ 8 = omega (arith, pow-le-pow_right two_positive small) in
    let (minimum, e) =
      find-some 18 1 18 (λ m. leb (2 ^ k) (m ^ 8)) (omega arith) (omega arith) (le→leb _ _ most) in
    let (larger, e') =
      find-some 18 1 18 (λ m. leb (rounded k) m) (omega arith) (omega arith) (le→leb _ _ fits) in
    let larger' = max larger minimum in
    let enough : 2 ^ k ≤ minimum ^ 8 =
      leb→le _ _ (find-holds 18 1 minimum (λ m. leb (2 ^ k) (m ^ 8)) e) in
    let wide : minimum ≤ larger' = omega arith in
    (minimum, larger', rw e (rw e' refl), enough, omega (arith, enough, pow-le-pow_left wide 8))

chosen-enough :
    (k minimum larger : ℕ) (expanded : Bool)
    → 2 ^ k ≤ minimum ^ 8
    → 2 ^ k ≤ larger ^ 8
    → 2 ^ k ≤ chosen expanded (minimum, larger) ^ 8
chosen-enough k minimum larger true h h' = h'
chosen-enough k minimum larger false h h' = h

data_frame-positive :
    (rate : SymbolRate) (bit_rate : ℕ)
    → (rates rate).0 ≤ bit_rate
    → 1 ≤ bit_rate * 28 / 100 / (counts rate).0
data_frame-positive s2400 n h = omega arith
data_frame-positive s2743 n h = omega arith
data_frame-positive s2800 n h = omega arith
data_frame-positive s3000 n h = omega arith
data_frame-positive s3200 n h = omega arith
data_frame-positive s3429 n h = omega arith

framing-IsFraming :
    (rate : SymbolRate) (bit_rate rings : ℕ)
    → (rates rate).0 ≤ bit_rate
    → let (j, p) = counts rate in
      let n = bit_rate * 28 / 100 / j in
      2 ^ (bits (div_ceil n p)).0 ≤ rings ^ 8 → IsFraming (framing rate bit_rate j p n rings)
framing-IsFraming rate bit_rate rings low enough =
    let p = (counts rate).1 in
    let n = bit_rate * 28 / 100 / (counts rate).0 in
    let (all, least, most) = data_frame-counts rate n (data_frame-positive rate bit_rate low) in
    record {
      data_frame = all;
      high_frames = (least, most);
      mapping_frame = bits-mapping (div_ceil n p);
      shell = bits-le (div_ceil n p);
      enough_rings = enough;
    }

-- When rounding gives at most 18 rings for the bits of the shell mapper: every multiple of 2400 bit/s
-- that table 8 has at a symbol rate gets a mapping. In it the mapping frames carry just the bits of the
-- data frame, with between one and P high ones; a mapping frame of b bits carries 12 bits, K for the
-- shell mapper, at most 31, and q for each of eight symbols, or up to 12 bits and no others; and the
-- rings are enough for K bits.
pub new-IsFraming :
    (rounded : ℕ → ℕ) (rate : SymbolRate) (bit_rate : ℕ) (expanded : Bool)
    → ((k : ℕ) → k ≤ 31 → rounded k ≤ 18)
    → bit_rate % 2400 ≡ 0
    → (rates rate).0 ≤ bit_rate
    → bit_rate ≤ (rates rate).1
    → (f : Framing) × (new rounded rate bit_rate expanded ≡ some f) × IsFraming f
unfolding new
new-IsFraming rounded rate bit_rate expanded fits multiple low high =
    let (j, p) = counts rate in
    let n = bit_rate * 28 / 100 / j in
    let k = (bits (div_ceil n p)).0 in
    let few = bits-le (div_ceil n p) in
    let (minimum, larger, e, enough, enough') = ring_counts-HasRings rounded k few (fits k few) in
    let allowed : (not (bit_rate % 2400 == 0)
          || not (leb (rates rate).0 bit_rate && leb bit_rate (rates rate).1))
        ≡ false =
      ground arith in
    (
      framing rate bit_rate j p n (chosen expanded (minimum, larger)),
      rw allowed (rw e refl),
      framing-IsFraming rate bit_rate _ low
          (chosen-enough k minimum larger expanded enough enough'),
    )
