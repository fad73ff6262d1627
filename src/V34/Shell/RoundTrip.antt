-- ===== src/V34/Shell/RoundTrip.antt =====
-- The receiver of shell.rs undoes what the shell mapper of the transmitter does.
use softmodem_rs.Prelude.{ℕ, ◌+◌, ◌-◌, ◌*◌, ◌/◌, ◌%◌, ◌≤◌, ◌<◌, ◌≡◌, ap, ap₂, ◌∙◌, List, ◌∷◌, arith}
use softmodem_rs.V34.Shell.{
  ShellMapper, sum, tabulate, convolve, at, largest, pair, unpair, pairs, totals, new, values,
  last_position, unwrap_or, Rings, octets, half, map, unhalf, unmap,
}
use softmodem_rs.V34.Shell.Sums.{Found, largest-Found, split_product}
use softmodem_rs.V34.Shell.Counts.{convolve-sum, unpair-pair, last_position-totals}

abbrev table : ℕ → List ℕ
table rings = tabulate 0 (2 * rings - 1) (pairs rings)

-- Rings below 256 fit an octet.
octets-pair :
    (rings total low : ℕ)
    → rings ≤ 256
    → low < at (table rings) total
    → unpair (octets (pair total low rings)) rings ≡ (total, low)
octets-pair rings total low fits h =
    let (e, first, last) = unpair-pair rings total low h in
    let same : octets (pair total low rings) ≡ pair total low rings =
      ap₂ (λ (x y : ℕ). (x, y)) (ground arith) (ground arith) in
    ap (λ r. unpair r rings) same ∙ e

abbrev ways : List ℕ → ℕ → ℕ → ℕ
ways g total p = at g p * at g (total - p)

abbrev half_by : ShellMapper → ℕ → ℕ × ℕ → (ℕ × ℕ) × (ℕ × ℕ)
half_by s total (c, r) =
    (octets (pair c (r % at s.g2 c) s.rings), octets (pair (total - c) (r / at s.g2 c) s.rings))

abbrev join : ShellMapper → ℕ × ℕ → ℕ × ℕ → ℕ × ℕ
join s (c, e) (rest, f) = (c + rest, (f * at s.g2 c + e) + sum c (ways s.g2 (c + rest)))

join-split :
    (s : ShellMapper) (total value c r : ℕ)
    → c ≤ total
    → r / at s.g2 c * at s.g2 c + r % at s.g2 c ≡ r
    → r + sum c (ways s.g2 total) ≡ value
    → join s (c, r % at s.g2 c) (total - c, r / at s.g2 c) ≡ (total, value)
join-split s total value c r le e whole =
    let same : c + (total - c) ≡ total = omega arith in
    ap (λ t. (t, (r / at s.g2 c * at s.g2 c + r % at s.g2 c) + sum c (ways s.g2 t))) same
    ∙ ap (λ v. (total, v)) (omega (arith, e, whole))

unhalf-half_by :
    (rings total value : ℕ) (r : ℕ × ℕ)
    → rings ≤ 256
    → Found total value (ways (table rings) total) r
    → unhalf (new rings) (half_by (new rings) total r) ≡ (total, value)
unfolding unhalf new
unhalf-half_by rings total value (c, r) fits (le, less, whole) =
    let (positive, remainder, quotient, e) =
      split_product r (at (table rings) c) (at (table rings) (total - c)) less in
    ap₂ (join (new rings)) (octets-pair rings c _ fits remainder)
      (octets-pair rings (total - c) _ fits quotient)
    ∙ join-split (new rings) total value c r le e whole

unhalf-half :
    (rings total value : ℕ)
    → rings ≤ 256
    → value < at (convolve (table rings)) total
    → unhalf (new rings) (half (new rings) total value) ≡ (total, value)
unfolding half new
unhalf-half rings total value fits less = unhalf-half_by rings total value _ fits (
    largest-Found total value (ways (table rings) total)
      (omega (arith, less, convolve-sum (table rings) total)))

abbrev map_by : ShellMapper → ℕ → ℕ × ℕ → Rings
map_by s a (b, r) = (half s b (r % at s.g4 b), half s (a - b) (r / at s.g4 b))

abbrev unmap_by : ShellMapper → ℕ × ℕ → ℕ × ℕ → ℕ
unmap_by s (b, r2) (rest, r3) =
    ((r3 * at s.g4 b + r2) + at s.z8 (b + rest)) + sum b (ways s.g4 (b + rest))

unmap-map_by :
    (rings a value : ℕ) (r : ℕ × ℕ)
    → rings ≤ 256
    → Found a value (ways (convolve (table rings)) a) r
    → unmap (new rings) (map_by (new rings) a r) ≡ value + at (new rings).z8 a
unfolding unmap new
unmap-map_by rings a value (b, r) fits (le, less, whole) =
    let g4 = convolve (table rings) in
    let (positive, remainder, quotient, e) = split_product r (at g4 b) (at g4 (a - b)) less in
    let same : b + (a - b) ≡ a = omega arith in
    ap₂ (unmap_by (new rings)) (unhalf-half rings b _ fits remainder)
      (unhalf-half rings (a - b) _ fits quotient)
    ∙ ap (λ t. ((r / at g4 b * at g4 b + r % at g4 b) + at (new rings).z8 t) + sum b (ways g4 t))
        same
    ∙ omega (arith, e, whole)

-- For at most 256 rings: of every value that the mapper takes, the rings that `map` gives are read by
-- `unmap` as that value.
pub unmap-map :
    (rings r0 : ℕ)
    → rings ≤ 256
    → r0 < values (new rings)
    → unmap (new rings) (map (new rings) r0) ≡ r0
unfolding map new values
unmap-map rings r0 fits less =
    let g4 = convolve (table rings) in
    let (a, (e, lower, upper)) = last_position-totals r0 0 (convolve g4) (omega arith) less in
    let here : unwrap_or (last_position r0 (0 ∷ totals 0 (convolve g4))) 0 ≡ a =
      ap (λ found. unwrap_or found 0) e in
    let left = r0 - at (new rings).z8 a in
    let found = largest-Found a left (ways g4 a) (omega (arith, lower, upper, convolve-sum g4 a)) in
    ap
      (λ i.
        unmap (new rings) (map_by (new rings) i (largest i (r0 - at (new rings).z8 i) (ways g4 i))))
      here
    ∙ unmap-map_by rings a left _ fits found
    ∙ omega (arith, lower)
