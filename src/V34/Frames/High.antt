-- ===== src/V34/Frames/High.antt =====
-- The high mapping frames of framing.rs are as many as the data frame needs.
use softmodem_rs.Prelude.{
  ℕ, zero, suc, ◌+◌, ◌*◌, ◌/◌, ◌≤◌, ◌<◌, ◌≡◌, ap, subst, ◌∙◌, if◌then◌else◌, arith,
}
use native.Mathlib.Nat.{
  le-div_iff_mul-le, div-mul-le_self, add-div_right, suc-mul, zero-mul, zero-div,
  mul-div_cancel_left,
}
use softmodem_rs.V34.Frames.{Framing, high}

-- How many of the first frames are high.
unfoldable pub count_high : Framing → ℕ → ℕ
count_high f zero = 0
count_high f (suc frame) = count_high f frame + (if high f frame then 1 else 0)

step-le : (a r p : ℕ) → 0 < p → r ≤ p → (a / p ≤ (a + r) / p) × ((a + r) / p ≤ a / p + 1)
step-le a r p positive le =
    let below = div-mul-le_self a p in
    let above = div-mul-le_self (a + r) p in
    (
      (le-div_iff_mul-le positive).1 (omega (arith, below)),
      subst (λ q. (a + r) / p ≤ q) (add-div_right a positive)
          ((le-div_iff_mul-le positive).1 (omega (arith, above, le))),
    )

count_high-div : (f : Framing) (n : ℕ) → 0 < f.p → f.r ≤ f.p → count_high f n ≡ n * f.r / f.p
unfolding count_high high
count_high-div f zero positive le =
    omega (arith, zero-mul f.r, zero-div f.p, ap (λ t. t / f.p) (zero-mul f.r))
count_high-div f (suc n) positive le =
    let lower = (step-le (n * f.r) f.r f.p positive le).0 in
    let upper = (step-le (n * f.r) f.r f.p positive le).1 in
    let next : suc n * f.r / f.p ≡ (n * f.r + f.r) / f.p = ap (λ t. t / f.p) (suc-mul n f.r) in
    let same : (n + 1) * f.r / f.p ≡ suc n * f.r / f.p = ap (λ m. m * f.r / f.p) (omega arith) in
    ground (arith, count_high-div f n positive le, lower, upper, next, same)

-- Of the P mapping frames of a data frame exactly r are high, if r is at most P and P is not 0.
pub count_high-all : (f : Framing) → 0 < f.p → f.r ≤ f.p → count_high f f.p ≡ f.r
count_high-all f positive le = count_high-div f f.p positive le ∙ mul-div_cancel_left f.r positive
