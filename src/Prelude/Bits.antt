-- ===== src/Prelude/Bits.antt =====
-- Laws of the native bit operations: one equation for the lowest digit, and splits into fields.
use Prim.Native.Nat.{
  ℕ, zero, suc, ◌+◌, ◌-◌, ◌*◌, ◌/◌, ◌%◌, ◌^◌, ◌≤◌, ◌<◌, min, max, bit_and, bit_or, bit_xor, bitwise,
  digits, bit_and-bitwise, bit_or-bitwise, bit_xor-bitwise, differ,
}
use mathlib.Core.Path.{◌≡◌, refl, ap, ap₂, sym, ◌∙◌}
use native.Mathlib.Nat.{pow-suc}
use native.Mathlib.Omega.{arith}

-- `bitwise` recurs on fuel, and more of it than the first number changes nothing.
module _ (z : ℕ → ℕ) (f : ℕ → ℕ → ℕ) where
  digits-zero : (fuel b : ℕ) → digits z f fuel 0 b ≡ z b
  digits-zero zero b = refl
  digits-zero (suc fuel) b = refl

  surplus : (k extra a b : ℕ) → a ≤ k → digits z f (k + extra) a b ≡ digits z f k a b
  surplus k extra zero b le = digits-zero (k + extra) b ∙ sym (digits-zero k b)
  surplus zero extra (suc a) b le = absurd (omega arith)
  surplus (suc k) extra (suc a) b le =
      let one_more : suc k + extra ≡ suc (k + extra) = omega arith in
      ap (λ n. digits z f n (suc a) b) one_more
      ∙ ap (λ high. high * 2 + f (suc a % 2) (b % 2))
          (surplus k extra (suc a / 2) (b / 2) (omega arith))

  -- One equation for an operation that means `bitwise`: its lowest digit, and the rest.
  module _ (op : ℕ → ℕ → ℕ) (meaning : (a b : ℕ) → op a b ≡ bitwise z f a b)
      (left_zero : (b : ℕ) → z b ≡ z (b / 2) * 2 + f 0 (b % 2)) where
    lowest_digit : (a b : ℕ) → op a b ≡ op (a / 2) (b / 2) * 2 + f (a % 2) (b % 2)
    lowest_digit zero b =
        meaning 0 b ∙ left_zero b ∙ ap (λ high. high * 2 + f 0 (b % 2)) (sym (meaning 0 (b / 2)))
    lowest_digit (suc a) b =
        let half = suc a / 2 in
        let fuel : half + (a - half) ≡ a = omega arith in
        meaning (suc a) b
        ∙ ap (λ high. high * 2 + f (suc a % 2) (b % 2))
            (ap (λ n. digits z f n half (b / 2)) (sym fuel)
              ∙ surplus half (a - half) half (b / 2) (omega arith)
              ∙ sym (meaning half (b / 2)))

differ_digits : (x y : ℕ) → x < 2 → y < 2 → differ x y ≡ (x + y) % 2
differ_digits zero zero h k = refl
differ_digits zero (suc zero) h k = refl
differ_digits (suc zero) zero h k = refl
differ_digits (suc zero) (suc zero) h k = refl
differ_digits (suc (suc x)) y h k = absurd (omega arith)
differ_digits x (suc (suc y)) h k = absurd (omega arith)

differ_left : (b : ℕ) → b ≡ b / 2 * 2 + differ 0 (b % 2)
differ_left b = omega (arith, differ_digits 0 (b % 2) (omega arith) (omega arith))

pub bit_xor_step : (a b : ℕ) → bit_xor a b ≡ bit_xor (a / 2) (b / 2) * 2 + (a % 2 + b % 2) % 2
bit_xor_step a b =
    lowest_digit (λ y. y) differ bit_xor bit_xor-bitwise (λ y. differ_left y) a b
    ∙ ap (λ low. bit_xor (a / 2) (b / 2) * 2 + low)
        (differ_digits (a % 2) (b % 2) (omega arith) (omega arith))

-- What a table of digits under two gives stays within the width of the operands.
module _ (op f : ℕ → ℕ → ℕ) (step : (a b : ℕ) → op a b ≡ op (a / 2) (b / 2) * 2 + f (a % 2) (b % 2))
    (small : (x y : ℕ) → x < 2 → y < 2 → f x y < 2) where
  digits-lt : (k a b : ℕ) → op 0 0 ≡ 0 → a < 2 ^ k → b < 2 ^ k → op a b < 2 ^ k
  digits-lt zero a b e h j =
      let zeros : op a b ≡ op 0 0 = ap₂ op (omega arith) (omega arith) in omega (arith, zeros)
  digits-lt (suc k) a b e h j = omega (
    arith,
    step a b,
    small (a % 2) (b % 2) (omega arith) (omega arith),
    pow-suc 2 k,
    digits-lt k (a / 2) (b / 2) e (omega (arith, pow-suc 2 k)) (omega (arith, pow-suc 2 k)),
  )

-- Nothing on the right leaves the left operand.
right_unit :
    (op : ℕ → ℕ → ℕ)
    → op 0 0 ≡ 0
    → ((a : ℕ) → op a 0 ≡ op (a / 2) 0 * 2 + a % 2)
    → (bound a : ℕ) → a ≤ bound
    → op a 0 ≡ a
right_unit op e step bound zero le = e
right_unit op e step zero (suc a) le = absurd (omega arith)
right_unit op e step (suc bound) (suc a) le =
    omega (arith, step (suc a), right_unit op e step bound (suc a / 2) (omega arith))

pub bit_xor-lt : (k a b : ℕ) → a < 2 ^ k → b < 2 ^ k → bit_xor a b < 2 ^ k
bit_xor-lt k a b =
    digits-lt bit_xor (λ x y. (x + y) % 2) bit_xor_step (λ x y h j. omega arith) k a b refl

shifted_field : (q k : ℕ) → q * 2 ^ suc k ≡ 2 * (q * 2 ^ k)
shifted_field q k = omega (arith, ap (λ unit. q * unit) (pow-suc 2 k))

-- Two numbers of two fields each: the fields do not touch one another.
pub bit_xor_fields :
    (k p q a b : ℕ)
    → a < 2 ^ k
    → b < 2 ^ k
    → bit_xor (p * 2 ^ k + a) (q * 2 ^ k + b) ≡ bit_xor p q * 2 ^ k + bit_xor a b
bit_xor_fields zero p q zero zero h j =
    let x : p * 2 ^ 0 + 0 ≡ p = omega arith in
    let y : q * 2 ^ 0 + 0 ≡ q = omega arith in omega (arith, ap₂ bit_xor x y)
bit_xor_fields zero p q zero (suc b) h j = absurd (omega arith)
bit_xor_fields zero p q (suc a) b h j = absurd (omega arith)
bit_xor_fields (suc k) p q a b h j =
    let a' : a / 2 < 2 ^ k = omega (arith, pow-suc 2 k) in
    let b' : b / 2 < 2 ^ k = omega (arith, pow-suc 2 k) in
    let x : (p * 2 ^ suc k + a) / 2 ≡ p * 2 ^ k + a / 2 = omega (arith, shifted_field p k) in
    let y : (q * 2 ^ suc k + b) / 2 ≡ q * 2 ^ k + b / 2 = omega (arith, shifted_field q k) in
    omega (
      arith,
      bit_xor_step (p * 2 ^ suc k + a) (q * 2 ^ suc k + b),
      ap₂ bit_xor x y,
      bit_xor_fields k p q (a / 2) (b / 2) a' b',
      bit_xor_step a b,
      shifted_field p k,
      shifted_field q k,
      shifted_field (bit_xor p q) k,
    )

bit_xor_self_fuel : (n a b : ℕ) → a ≤ n → b ≤ n → bit_xor (bit_xor a b) b ≡ a
bit_xor_self_fuel zero zero zero h j = refl
bit_xor_self_fuel zero zero (suc b) h j = absurd (omega arith)
bit_xor_self_fuel zero (suc a) b h j = absurd (omega arith)
bit_xor_self_fuel (suc n) a b h j =
    let half : bit_xor a b / 2 ≡ bit_xor (a / 2) (b / 2) = omega (arith, bit_xor_step a b) in
    omega (
      arith,
      bit_xor_step (bit_xor a b) b,
      bit_xor_step a b,
      ap (λ t. bit_xor t (b / 2)) half,
      bit_xor_self_fuel n (a / 2) (b / 2) (omega arith) (omega arith),
    )

-- A second `bit_xor` with the same number undoes the first.
pub bit_xor_self : (a b : ℕ) → bit_xor (bit_xor a b) b ≡ a
bit_xor_self a b = bit_xor_self_fuel (a + b) a b (omega arith) (omega arith)

pub bit_xor-zero : (a : ℕ) → bit_xor a 0 ≡ a
bit_xor-zero a = right_unit bit_xor refl (λ b. omega (arith, bit_xor_step b 0)) a a (omega arith)

bit_xor_comm_fuel : (n a b : ℕ) → a + b ≤ n → bit_xor a b ≡ bit_xor b a
bit_xor_comm_fuel zero zero zero h = refl
bit_xor_comm_fuel zero zero (suc b) h = absurd (omega arith)
bit_xor_comm_fuel zero (suc a) b h = absurd (omega arith)
bit_xor_comm_fuel (suc n) zero zero h = refl
bit_xor_comm_fuel (suc n) a b h =
    omega
      (arith, bit_xor_step a b, bit_xor_step b a, bit_xor_comm_fuel n (a / 2) (b / 2) (omega arith))

pub bit_xor_comm : (a b : ℕ) → bit_xor a b ≡ bit_xor b a
bit_xor_comm a b = bit_xor_comm_fuel (a + b) a b (omega arith)

-- Exclusive or with a fixed number is injective.
pub bit_xor_cancel : (r a b : ℕ) → bit_xor r a ≡ bit_xor r b → a ≡ b
bit_xor_cancel r a b h =
    sym (bit_xor_self a r)
    ∙ ap (λ t. bit_xor t r) (bit_xor_comm a r ∙ h ∙ bit_xor_comm r b)
    ∙ bit_xor_self b r

bit_or_step : (a b : ℕ) → bit_or a b ≡ bit_or (a / 2) (b / 2) * 2 + max (a % 2) (b % 2)
bit_or_step = lowest_digit (λ b. b) max bit_or bit_or-bitwise (λ b. omega arith)

bit_and_step : (a b : ℕ) → bit_and a b ≡ bit_and (a / 2) (b / 2) * 2 + min (a % 2) (b % 2)
bit_and_step = lowest_digit (λ b. 0) min bit_and bit_and-bitwise (λ b. omega arith)

distrib_fuel :
    (n a m c : ℕ) → a + m + c ≤ n → bit_and (bit_or a m) c ≡ bit_or (bit_and a c) (bit_and m c)
distrib_fuel zero zero zero zero h = refl
distrib_fuel zero (suc a) m c h = absurd (omega arith)
distrib_fuel zero a (suc m) c h = absurd (omega arith)
distrib_fuel zero a m (suc c) h = absurd (omega arith)
distrib_fuel (suc n) zero zero zero h = refl
distrib_fuel (suc n) a m c h =
    let x : bit_or a m / 2 ≡ bit_or (a / 2) (m / 2) = omega (arith, bit_or_step a m) in
    let y : bit_and a c / 2 ≡ bit_and (a / 2) (c / 2) = omega (arith, bit_and_step a c) in
    let z : bit_and m c / 2 ≡ bit_and (m / 2) (c / 2) = omega (arith, bit_and_step m c) in
    omega (
      arith,
      bit_and_step (bit_or a m) c,
      bit_or_step (bit_and a c) (bit_and m c),
      bit_or_step a m,
      bit_and_step a c,
      bit_and_step m c,
      ap (λ t. bit_and t (c / 2)) x,
      ap₂ bit_or y z,
      distrib_fuel n (a / 2) (m / 2) (c / 2) (omega arith),
    )

-- `&` distributes over `|`.
pub bit_and-bit_or : (a m c : ℕ) → bit_and (bit_or a m) c ≡ bit_or (bit_and a c) (bit_and m c)
bit_and-bit_or a m c = distrib_fuel (a + m + c) a m c (omega arith)

pub bit_or-zero : (a : ℕ) → bit_or a 0 ≡ a
bit_or-zero a = right_unit bit_or refl (λ b. omega (arith, bit_or_step b 0)) a a (omega arith)

pub bit_or-lt : (k a b : ℕ) → a < 2 ^ k → b < 2 ^ k → bit_or a b < 2 ^ k
bit_or-lt k a b = digits-lt bit_or max bit_or_step (λ x y h j. omega arith) k a b refl
