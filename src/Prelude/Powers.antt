-- ===== src/Prelude/Powers.antt =====
-- Quotients and remainders by powers of two, one binary digit at a time.
use Prim.Native.Nat.{ℕ, zero, suc, ◌+◌, ◌*◌, ◌/◌, ◌%◌, ◌^◌, ◌≤◌, ◌<◌}
use mathlib.Core.Path.{◌≡◌, ap, sym, ◌∙◌}
use native.Mathlib.Omega.{arith}
use native.Mathlib.Nat.{
  pow-suc, mod-add-div', mod-lt, mod-eq_of_lt, add-mul-mod_self_left, div-div-eq-div-mul,
}

pub two_pow_positive : (k : ℕ) → 0 < 2 ^ k
two_pow_positive zero = omega arith
two_pow_positive (suc k) = omega (arith, pow-suc 2 k, two_pow_positive k)

-- The last `k + 1` digits: the last but one `k`, and one more.
pub mod-double : (x c k : ℕ) → c < 2 → (x * 2 + c) % 2 ^ suc k ≡ (x % 2 ^ k) * 2 + c
mod-double x c k h =
    let r = x % 2 ^ k in
    let small : r * 2 + c < 2 ^ suc k = omega (arith, pow-suc 2 k, mod-lt x (two_pow_positive k)) in
    let split : x * 2 + c ≡ r * 2 + c + 2 ^ suc k * (x / 2 ^ k) =
      omega (arith, mod-add-div' x (2 ^ k), ap (λ t. t * (x / 2 ^ k)) (pow-suc 2 k)) in
    ap (λ t. t % 2 ^ suc k) split
    ∙ add-mul-mod_self_left (r * 2 + c) (2 ^ suc k) (x / 2 ^ k)
    ∙ mod-eq_of_lt small

pub mod-halves : (x k : ℕ) → x % 2 ^ suc k ≡ (x / 2 % 2 ^ k) * 2 + x % 2
mod-halves x k =
    let halves : x ≡ x / 2 * 2 + x % 2 = omega arith in
    ap (λ t. t % 2 ^ suc k) halves ∙ mod-double (x / 2) (x % 2) k (omega arith)

-- Of a number cut to `b` digits, the last `k`.
pub mod-mod_pow : (x k b : ℕ) → k ≤ b → x % 2 ^ b % 2 ^ k ≡ x % 2 ^ k
mod-mod_pow x zero b h = omega arith
mod-mod_pow x (suc k) zero h = absurd (omega arith)
mod-mod_pow x (suc k) (suc b) h =
    ap (λ t. t % 2 ^ suc k) (mod-halves x b)
    ∙ mod-double (x / 2 % 2 ^ b) (x % 2) k (omega arith)
    ∙ ap (λ t. t * 2 + x % 2) (mod-mod_pow (x / 2) k b (omega arith))
    ∙ sym (mod-halves x k)

-- One shift to the right more.
pub div-halves : (x k : ℕ) → x / 2 ^ suc k ≡ x / 2 ^ k / 2
div-halves x k =
    let power : 2 ^ suc k ≡ 2 ^ k * 2 = omega (arith, pow-suc 2 k) in
    ap (λ t. x / t) power ∙ sym (div-div-eq-div-mul x (2 ^ k) 2)

-- The same digit taken off first.
pub div-first : (x k : ℕ) → x / 2 ^ suc k ≡ x / 2 / 2 ^ k
div-first x k =
    let power : 2 ^ suc k ≡ 2 * 2 ^ k = omega (arith, pow-suc 2 k) in
    ap (λ t. x / t) power ∙ sym (div-div-eq-div-mul x 2 (2 ^ k))
