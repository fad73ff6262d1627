-- ===== src/V34/Shell.antt =====
-- softmodem-dsp/src/v34/shell.rs: the shell mapper of V.34. The differences of indices are natural
-- numbers, which stop at 0 where the source would go below it.
pub mod Sums
pub mod Counts
pub mod RoundTrip
use softmodem_rs.Prelude.{
  ℕ, zero, suc, ◌+◌, ◌-◌, ◌*◌, ◌/◌, ◌%◌, Option, none, some, List, [], ◌∷◌, ltb, leb, if◌then◌else◌,
  length, get_elem?, get_or,
}

pub record ShellMapper : Type 0 where
  pub rings : ℕ
  pub g2 : List ℕ
  pub g4 : List ℕ
  pub z8 : List ℕ

-- `Some(g.get(i)? * g.get(p - i)?)`, where a missing product adds nothing.
abbrev pub product : Option ℕ → Option ℕ → ℕ
product (some x) (some y) = x * y
product (some x) none = 0
product none y = 0

-- `(0..n).map(term).sum()`
unfoldable pub sum : ℕ → (ℕ → ℕ) → ℕ
sum zero term = 0
sum (suc n) term = sum n term + term n

-- `(start..start + n).map(f).collect()`
unfoldable pub tabulate : ℕ → ℕ → (ℕ → ℕ) → List ℕ
tabulate start zero f = []
tabulate start (suc n) f = f start ∷ tabulate (suc start) n f

unfoldable pub convolve : List ℕ → List ℕ
unfolding sum tabulate
convolve g =
    tabulate 0 (2 * length g - 1)
      (λ p. sum (p + 1) (λ i. product (get_elem? g i) (get_elem? g (p - i))))

abbrev pub at : List ℕ → ℕ → ℕ
at g p = get_or g p 0

-- The loop of `largest` from n on.
unfoldable pub largest_from : ℕ → ℕ → ℕ → (ℕ → ℕ) → ℕ × ℕ
largest_from zero n value term = (n, value)
largest_from (suc fuel) n value term =
    let rest = largest_from fuel (suc n) (value - term n) term in
    if leb (term n) value then rest else (n, value)

unfoldable pub largest : ℕ → ℕ → (ℕ → ℕ) → ℕ × ℕ
unfolding largest_from
largest fuel value term = largest_from fuel 0 value term

unfoldable pub pair : ℕ → ℕ → ℕ → ℕ × ℕ
pair total low rings =
    if ltb total rings then (low, total - low) else (total - ((rings - 1) - low), (rings - 1) - low)

unfoldable pub unpair : ℕ × ℕ → ℕ → ℕ × ℕ
unpair (first, last) rings =
    let total = first + last in (total, if ltb total rings then first else (rings - 1) - last)

-- `abs_diff`
abbrev pub distance : ℕ → ℕ → ℕ
distance a b = (a - b) + (b - a)

abbrev pub pairs : ℕ → ℕ → ℕ
pairs rings p = rings - distance p (rings - 1)

-- The `scan` of `new`.
unfoldable pub totals : ℕ → List ℕ → List ℕ
totals total [] = []
totals total (g ∷ gs) = (total + g) ∷ totals (total + g) gs

unfoldable pub new : ℕ → ShellMapper
unfolding tabulate convolve totals
new rings =
    let g2 = tabulate 0 (2 * rings - 1) (pairs rings) in
    let g4 = convolve g2 in
    record { rings = rings; g2 = g2; g4 = g4; z8 = 0 ∷ totals 0 (convolve g4) }

abbrev pub last_or : ℕ → List ℕ → ℕ
last_or d [] = d
last_or d (x ∷ xs) = last_or x xs

unfoldable pub values : ShellMapper → ℕ
values s = last_or 0 s.z8

abbrev next : Option ℕ → Option ℕ → Option ℕ
next (some i) found = some (i + 1)
next none found = found

-- `rposition(|&z| z <= value)`
unfoldable pub last_position : ℕ → List ℕ → Option ℕ
last_position value [] = none
last_position value (z ∷ zs) = next (last_position value zs) (if leb z value then some 0 else none)

abbrev pub unwrap_or : Option ℕ → ℕ → ℕ
unwrap_or none d = d
unwrap_or (some x) d = x

-- `u8::try_from(ring).unwrap_or(u8::MAX)`
abbrev pub to_octet : ℕ → ℕ
to_octet ring = if ltb ring 256 then ring else 255

abbrev pub Rings : Type 0
Rings = ((ℕ × ℕ) × (ℕ × ℕ)) × ((ℕ × ℕ) × (ℕ × ℕ))

abbrev pub octets : ℕ × ℕ → ℕ × ℕ
octets (first, last) = (to_octet first, to_octet last)

-- Two of the pairs, for a sum and what is left of it.
unfoldable pub half : ShellMapper → ℕ → ℕ → (ℕ × ℕ) × (ℕ × ℕ)
unfolding largest pair
half s total value =
    let (first, rest) = largest total value (λ p. at s.g2 p * at s.g2 (total - p)) in
    (
      octets (pair first (rest % at s.g2 first) s.rings),
      octets (pair (total - first) (rest / at s.g2 first) s.rings),
    )

unfoldable pub map : ShellMapper → ℕ → Rings
unfolding last_position largest half
map s r0 =
    let a = unwrap_or (last_position r0 s.z8) 0 in
    let (b, r1) = largest a (r0 - at s.z8 a) (λ p. at s.g4 p * at s.g4 (a - p)) in
    (half s b (r1 % at s.g4 b), half s (a - b) (r1 / at s.g4 b))

-- The sum of two pairs, and the value that was left.
unfoldable pub unhalf : ShellMapper → (ℕ × ℕ) × (ℕ × ℕ) → ℕ × ℕ
unfolding unpair sum
unhalf s (first, last) =
    let (c, e) = unpair first s.rings in
    let (rest, f) = unpair last s.rings in
    let total = c + rest in
    (total, (f * at s.g2 c + e) + sum c (λ p. at s.g2 p * at s.g2 (total - p)))

unfoldable pub unmap : ShellMapper → Rings → ℕ
unfolding unhalf sum
unmap s (first, last) =
    let (b, r2) = unhalf s first in
    let (rest, r3) = unhalf s last in
    let a = b + rest in
    let r1 = r3 * at s.g4 b + r2 in (r1 + at s.z8 a) + sum b (λ p. at s.g4 p * at s.g4 (a - p))
