-- ===== src/V34/Shell/Counts.antt =====
-- The tables of the shell mapper of shell.rs: what they count, and where a value falls in them.
use softmodem_rs.Prelude.{
  ℕ, zero, suc, ◌+◌, ◌-◌, ◌*◌, ◌≤◌, ◌<◌, ◌≡◌, refl, ap, ap₂, sym, subst, ◌∙◌, Bool-cases, inl, inr,
  leb, ltb, List, [], ◌∷◌, none, some, length, get_elem?, arith, Option,
}
use native.Mathlib.Nat.{mul_comm, zero-mul}
use softmodem_rs.V34.Shell.{
  product, sum, tabulate, convolve, at, pairs, pair, unpair, totals, last_or, last_position,
  unwrap_or,
}

at-get_elem? : (g : List ℕ) (i : ℕ) → at g i ≡ unwrap_or (get_elem? g i) 0
at-get_elem? [] i = refl
at-get_elem? (x ∷ g) zero = refl
at-get_elem? (x ∷ g) (suc i) = at-get_elem? g i

product-unwrap_or : (x y : Option ℕ) → product x y ≡ unwrap_or x 0 * unwrap_or y 0
product-unwrap_or (some x) (some y) = refl
product-unwrap_or (some x) none = omega (arith, mul_comm x 0, zero-mul x)
product-unwrap_or none y = sym (zero-mul (unwrap_or y 0))

product-at : (g h : List ℕ) (i j : ℕ) → product (get_elem? g i) (get_elem? h j) ≡ at g i * at h j
product-at g h i j =
    product-unwrap_or (get_elem? g i) (get_elem? h j)
    ∙ sym (ap₂ (λ x y. x * y) (at-get_elem? g i) (at-get_elem? h j))

sum-cong : (n : ℕ) (f g : ℕ → ℕ) → ((p : ℕ) → f p ≡ g p) → sum n f ≡ sum n g
unfolding sum
sum-cong zero f g e = refl
sum-cong (suc n) f g e = omega (arith, sum-cong n f g e, e n)

at-tabulate_in : (start n p : ℕ) (f : ℕ → ℕ) → p < n → at (tabulate start n f) p ≡ f (start + p)
unfolding tabulate
at-tabulate_in start zero p f h = absurd (omega arith)
at-tabulate_in start (suc n) zero f h = ap f (omega arith)
at-tabulate_in start (suc n) (suc p) f h =
    at-tabulate_in (suc start) n p f (omega arith) ∙ ap f (omega arith)

at-tabulate_out : (start n p : ℕ) (f : ℕ → ℕ) → n ≤ p → at (tabulate start n f) p ≡ 0
unfolding tabulate
at-tabulate_out start zero p f h = refl
at-tabulate_out start (suc n) zero f h = absurd (omega arith)
at-tabulate_out start (suc n) (suc p) f h = at-tabulate_out (suc start) n p f (omega arith)

at-tabulate : (n p : ℕ) (f : ℕ → ℕ) → at (tabulate 0 n f) p ≤ f p
at-tabulate n p f = elim (Bool-cases (ltb p n)) [
  | inl lt ↦
      let same : 0 + p ≡ p = omega arith in
      omega (arith, at-tabulate_in 0 n p f (ground arith), ap f same)
  | inr ge ↦ omega (arith, at-tabulate_out 0 n p f (ground arith))
]

-- A number of the convolution is that many products at most.
pub convolve-sum :
    (g : List ℕ) (p : ℕ) → at (convolve g) p ≤ sum (p + 1) (λ i. at g i * at g (p - i))
unfolding convolve
convolve-sum g p =
    subst (λ t. at (convolve g) p ≤ t) (sum-cong (p + 1) _ _ (λ i. product-at g g i (p - i)))
      (at-tabulate (2 * length g - 1) p _)

pairs-bound :
    (rings total low : ℕ)
    → low < at (tabulate 0 (2 * rings - 1) (pairs rings)) total
    → (total + 1 < 2 * rings) × (low < pairs rings total)
pairs-bound rings total low h = elim (Bool-cases (ltb total (2 * rings - 1))) [
  | inl lt ↦ (ground arith, omega (arith, h, at-tabulate (2 * rings - 1) total (pairs rings)))
  | inr ge ↦
      absurd
        (omega (arith, h, at-tabulate_out 0 (2 * rings - 1) total (pairs rings) (ground arith)))
]

-- A pair is taken apart again, and its rings are below the number of rings.
pub unpair-pair :
    (rings total low : ℕ)
    → low < at (tabulate 0 (2 * rings - 1) (pairs rings)) total
    → (unpair (pair total low rings) rings ≡ (total, low))
      × ((pair total low rings).0 < rings)
      × ((pair total low rings).1 < rings)
unfolding pair unpair
unpair-pair rings total low h = let (within, few) = pairs-bound rings total low h in ground arith

-- A value below the last of the totals falls between the total at its position and the next one.
abbrev pub Placed : ℕ → ℕ → List ℕ → ℕ → Option ℕ → Type 0
Placed value start gs a found =
    (found ≡ some a)
    × (at (start ∷ totals start gs) a ≤ value)
    × (value < at (start ∷ totals start gs) a + at gs a)

last_position-none :
    (value start : ℕ) (gs : List ℕ)
    → value < start
    → last_position value (start ∷ totals start gs) ≡ none
unfolding last_position totals
last_position-none value start [] h = ground arith
last_position-none value start (g ∷ gs) h =
    rw (last_position-none value (start + g) gs (omega arith)) (ground arith)

pub last_position-totals :
    (value start : ℕ) (gs : List ℕ)
    → start ≤ value
    → value < last_or 0 (start ∷ totals start gs)
    → (a : ℕ) × Placed value start gs a (last_position value (start ∷ totals start gs))
unfolding last_position totals
last_position-totals value start [] le less = absurd (omega arith)
last_position-totals value start (g ∷ gs) le less = elim (Bool-cases (leb (start + g) value)) [
  | inl more ↦
      let (a, (e, lower, upper)) = last_position-totals value (start + g) gs (ground arith) less in
      (suc a, (rw e (ap some (omega arith)), lower, upper))
  | inr fewer ↦ (
    0,
    (rw (last_position-none value (start + g) gs (ground arith)) (ground arith), le, ground arith),
  )
]
