-- ===== src/V42bis/Encoder/Width.antt =====
-- The STEPUPs of `Encoder::codeword` in v42bis.rs.
use softmodem_rs.Prelude.{
  ℕ, zero, suc, ◌+◌, ◌-◌, ◌^◌, ◌≤◌, ◌<◌, ◌≡◌, ◌⊎◌, inl, inr, ap, ap₂, ◌∙◌, subst, leb, leb→le,
  arith, if_cases,
}
use softmodem_rs.V42bis.Encoder.{Encoder, put, step_up, codeword, stepup}
use softmodem_rs.V42bis.BitWriter.{BitWriter}
use softmodem_rs.V42bis.BitWriter
use native.Mathlib.Nat.{pow-le-pow_right}

-- A width that a codeword fits, and no wider than it must be.
abbrev pub IsWidth : ℕ → ℕ → ℕ → Type 0
IsWidth before code after =
    (before ≤ after) × (code < 2 ^ after) × ((after ≡ before) ⊎ (2 ^ (after - 1) ≤ code))

-- As many STEPUPs, each at the size that the ones before it leave.
abbrev pub stepups : ℕ → ℕ → BitWriter → BitWriter
stepups zero width writer = writer
stepups (suc n) width writer = stepups n (width + 1) (BitWriter.put writer stepup width)

-- The bits of as many STEPUPs.
abbrev pub sizes : ℕ → ℕ → ℕ
sizes zero width = 0
sizes (suc n) width = width + sizes n (width + 1)

-- The encoder after as many STEPUPs.
abbrev pub stepped : ℕ → Encoder → Encoder
stepped n e = record e { writer = stepups n e.width e.writer; width = e.width + n }

zero_add : (n : ℕ) → 0 + n ≡ n
zero_add n = omega arith

abbrev Steps : Encoder → ℕ → ℕ → Encoder × ℕ → Type 0
Steps e code bits r =
    (n : ℕ) × IsWidth e.width code (e.width + n)
    × (r.0 ≡ stepped n e)
    × (r.1 ≡ bits + sizes n e.width)

one_wider :
    (width code after : ℕ)
    → 2 ^ width ≤ code
    → IsWidth (width + 1) code after
    → IsWidth width code after
one_wider width code after h (le, fits, inl same) =
    let before : width ≡ after - 1 = omega arith in
    (omega arith, fits, inr (subst (λ n. 2 ^ n ≤ code) before h))
one_wider width code after h (le, fits, inr tight) = (omega arith, fits, inr tight)

step_up-Steps :
    (fuel : ℕ) (e : Encoder) (code bits : ℕ)
    → code < 2 ^ (e.width + fuel)
    → Steps e code bits (step_up fuel e code bits)
unfolding step_up put
step_up-Steps zero e code bits h = (
  0,
  (omega arith, h, inl (omega arith)),
  ap (λ n. record e { width = n }) (omega arith),
  omega arith,
)
step_up-Steps (suc fuel) e code bits h =
    let e' : Encoder = record (put e stepup) { width = e.width + 1 } in
    let again : code < 2 ^ (e.width + 1 + fuel) = subst (λ n. code < 2 ^ n) (omega arith) h in
    if_cases (Steps e code bits) (leb (2 ^ e.width) code) _ _
      (λ too_wide.
        let (n, width, same, sum) = step_up-Steps fuel e' code (bits + e.width) again in
        let wider : e.width + 1 + n ≡ e.width + suc n = omega arith in
        (
          suc n,
          subst (IsWidth e.width code) wider
              (one_wider e.width code (e.width + 1 + n) (leb→le _ _ too_wide) width),
          same ∙ ap (λ w. record e { writer = stepups (suc n) e.width e.writer; width = w }) wider,
          sum ∙ omega arith,
        ))
      (λ fits. (
        0,
        (omega arith, ground arith, inl (omega arith)),
        ap (λ n. record e { width = n }) (omega arith),
        omega arith,
      ))

-- A codeword of sixteen bits goes out after STEPUPs alone, each at the size that the ones before it
-- leave, and at a size that it fits: the size before if that was enough, else the number of
-- bits it has. The encoder keeps that size, and the bits returned are those of all of these.
pub codeword-stepups :
    (e : Encoder) (code : ℕ)
    → code < 2 ^ 16
    → (n : ℕ) × IsWidth e.width code (e.width + n)
      × ((codeword e code).0 ≡ record e {
        writer = BitWriter.put (stepups n e.width e.writer) code (e.width + n);
        width = e.width + n;
      })
      × ((codeword e code).1 ≡ sizes n e.width + (e.width + n))
unfolding codeword put
codeword-stepups e code h =
    let (n, width, same, sum) = step_up-Steps 16 e code 0 (
      omega (
        arith,
        pow-le-pow_right {n = 2} (omega arith) {i = 16} {j = e.width + 16} (omega arith),
      )) in
    (
      n,
      width,
      ap (λ x. put x code) same,
      ap₂ ◌+◌ (sum ∙ zero_add (sizes n e.width)) (ap (λ (x : Encoder). x.width) same),
    )
