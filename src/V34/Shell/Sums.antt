-- ===== src/V34/Shell/Sums.antt =====
-- What `largest` of shell.rs finds, and the products in mixed bases.
use softmodem_rs.Prelude.{
  ℕ, zero, suc, ◌+◌, ◌-◌, ◌*◌, ◌/◌, ◌%◌, ◌≤◌, ◌<◌, ◌≡◌, ap, Bool-cases, inl, inr, leb, arith,
}
use native.Mathlib.Nat.{mod-add-div', mod-lt, div-lt_iff_lt-mul, mul_comm, zero-mul}
use softmodem_rs.V34.Shell.{sum, largest_from, largest}

-- The terms from n on, `count` of them.
abbrev sum_from : ℕ → ℕ → (ℕ → ℕ) → ℕ
sum_from zero n term = 0
sum_from (suc count) n term = term n + sum_from count (suc n) term

abbrev pub Found : ℕ → ℕ → (ℕ → ℕ) → ℕ × ℕ → Type 0
Found limit value term r = (r.0 ≤ limit) × (r.1 < term r.0) × (r.1 + sum r.0 term ≡ value)

widen :
    (limit limit' all : ℕ) (term : ℕ → ℕ) (r : ℕ × ℕ)
    → limit ≡ limit'
    → Found limit all term r
    → Found limit' all term r
widen limit limit' all term r e (le, less, whole) = (omega arith, less, whole)

largest_from-Found :
    (fuel n value all : ℕ) (term : ℕ → ℕ)
    → value + sum n term ≡ all
    → value < sum_from (suc fuel) n term
    → Found (n + fuel) all term (largest_from fuel n value term)
unfolding largest_from sum
largest_from-Found zero n value all term e h = (omega arith, omega arith, e)
largest_from-Found (suc fuel) n value all term e h = elim (Bool-cases (leb (term n) value)) [
  | inl le ↦ rw le (
      widen (suc n + fuel) (n + suc fuel) all term _ (omega arith)
        (largest_from-Found fuel (suc n) (value - term n) all term (ground arith) (ground arith)))
  | inr gt ↦ rw gt (omega arith, ground arith, e)
]

sum_from-sum :
    (count n : ℕ) (term : ℕ → ℕ) → sum n term + sum_from count n term ≡ sum (n + count) term
unfolding sum
sum_from-sum zero n term =
    let same : n ≡ n + 0 = omega arith in omega (arith, ap (λ m. sum m term) same)
sum_from-sum (suc count) n term =
    let shifted : suc n + count ≡ n + suc count = omega arith in
    omega (arith, sum_from-sum count (suc n) term, ap (λ m. sum m term) shifted)

-- With a turn for each term but the last, and a value below the sum of them all.
pub largest-Found :
    (limit value : ℕ) (term : ℕ → ℕ)
    → value < sum (limit + 1) term
    → Found limit value term (largest limit value term)
unfolding largest sum
largest-Found limit value term h =
    let whole : 0 + suc limit ≡ limit + 1 = omega arith in
    let all : sum_from (suc limit) 0 term ≡ sum (limit + 1) term =
      omega (arith, sum_from-sum (suc limit) 0 term, ap (λ m. sum m term) whole) in
    widen (0 + limit) limit value term _ (omega arith)
      (largest_from-Found limit 0 value value term (omega arith) (omega (arith, h, all)))

-- The quotient by a factor is below the other one, the remainder below the factor, and they make up
-- the value.
pub split_product :
    (value x y : ℕ)
    → value < x * y
    → (0 < x) × (value % x < x) × (value / x < y) × (value / x * x + value % x ≡ value)
split_product value zero y h = absurd (omega (arith, zero-mul y))
split_product value (suc k) y h =
    let x = suc k in
    let positive : 0 < x = omega arith in
    let quotient : value / x < y =
      (div-lt_iff_lt-mul positive).1 (omega (arith, h, mul_comm x y)) in
    (positive, mod-lt value positive, quotient, omega (arith, mod-add-div' value x))
