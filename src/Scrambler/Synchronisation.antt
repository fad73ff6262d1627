-- ===== src/Scrambler/Synchronisation.antt =====
-- About the descrambler of scrambler.rs on what the scrambler sends, with and without its guard.
use softmodem_rs.Prelude.{
  ℕ, zero, suc, ◌+◌, ◌*◌, ◌%◌, ◌^◌, ◌≤◌, ◌<◌, ◌≡◌, refl, ap, ap₂, sym, subst, ◌∙◌, Bool, true,
  false, not, xor, ◌&&◌, List, [], ◌∷◌, drop, leb, if◌then◌else◌, arith,
}
use softmodem_rs.Prelude.Powers.{two_pow_positive, mod-double, mod-mod_pow}
use native.Mathlib.Nat.{mod-lt, mod-eq_of_lt, pow-le-pow_right}
use softmodem_rs.Scrambler.{
  Polynomial, taps, shift, from_bool, Scrambler, guarded, scramble, Descrambler, descramble,
  scramble_all, descramble_all,
}

from_bool-lt : (bit : Bool) → from_bool bit < 2
from_bool-lt true = omega arith
from_bool-lt false = omega arith

shift-mod :
    (p : Polynomial) (x : ℕ) (bit : Bool) (k : ℕ)
    → p.b ≤ 31
    → x < 2 ^ p.b
    → suc k ≤ p.b
    → shift p x bit % 2 ^ suc k ≡ (x % 2 ^ k) * 2 + from_bool bit
unfolding shift
shift-mod p x bit k h small le =
    let whole : x * 2 % 2 ^ 32 ≡ x * 2 =
      mod-eq_of_lt (omega (arith, pow-le-pow_right {n = 2} (omega arith) h)) in
    ap (λ t. (t + from_bool bit) % 2 ^ p.b % 2 ^ suc k) whole
    ∙ mod-mod_pow (x * 2 + from_bool bit) (suc k) p.b le
    ∙ mod-double x (from_bool bit) k (from_bool-lt bit)

shift-lt : (p : Polynomial) (x : ℕ) (bit : Bool) → shift p x bit < 2 ^ p.b
unfolding shift
shift-lt p x bit = mod-lt _ (two_pow_positive p.b)

-- The last `k` bits of both histories are the same.
abbrev Agrees : Polynomial → ℕ → Scrambler → Descrambler → Type 0
Agrees p k s d =
    (s.polynomial ≡ p)
    × (d.polynomial ≡ p)
    × (s.history < 2 ^ p.b)
    × (d.history < 2 ^ p.b)
    × (s.history % 2 ^ k ≡ d.history % 2 ^ k)

step-Agrees :
    (p : Polynomial) (k : ℕ) (s : Scrambler) (d : Descrambler) (bit : Bool)
    → p.b ≤ 31
    → suc k ≤ p.b
    → Agrees p k s d
    → Agrees p (suc k) (scramble s bit).0 (descramble d (scramble s bit).1).0
unfolding scramble descramble
step-Agrees p k s d bit h le (e, e', ls, ld, same) =
    let out = (scramble s bit).1 in
    (
      e,
      e',
      subst (λ q. shift q s.history out < 2 ^ p.b) (sym e) (shift-lt p s.history out),
      subst (λ q. shift q d.history out < 2 ^ p.b) (sym e') (shift-lt p d.history out),
      ap (λ q. shift q s.history out % 2 ^ suc k) e
          ∙ shift-mod p s.history out k h ls le
          ∙ ap (λ t. t * 2 + from_bool out) same
          ∙ sym (shift-mod p d.history out k h ld le)
          ∙ ap (λ q. shift q d.history out % 2 ^ suc k) (sym e'),
    )

xor-twice : (x t : Bool) → xor (xor x t) t ≡ x
unfolding mathlib.Core.Bool.xor
xor-twice true true = refl
xor-twice true false = refl
xor-twice false true = refl
xor-twice false false = refl

Agrees-history :
    (p : Polynomial) (s : Scrambler) (d : Descrambler) → Agrees p p.b s d → s.history ≡ d.history
Agrees-history p s d (e, e', ls, ld, same) = sym (mod-eq_of_lt ls) ∙ same ∙ mod-eq_of_lt ld

-- The histories stay the same once they are.
stays-Agrees :
    (p : Polynomial) (s : Scrambler) (d : Descrambler) (bit : Bool)
    → Agrees p p.b s d
    → Agrees p p.b (scramble s bit).0 (descramble d (scramble s bit).1).0
unfolding scramble descramble
stays-Agrees p s d bit (e, e', ls, ld, same) =
    let out = (scramble s bit).1 in
    let equal = Agrees-history p s d (e, e', ls, ld, same) in
    (
      e,
      e',
      subst (λ q. shift q s.history out < 2 ^ p.b) (sym e) (shift-lt p s.history out),
      subst (λ q. shift q d.history out < 2 ^ p.b) (sym e') (shift-lt p d.history out),
      ap₂ (λ q x. shift q x out % 2 ^ p.b) (e ∙ sym e') equal,
    )

-- The input after the guard, which turns over the bit that follows too many ones.
abbrev guarded_all : Scrambler → List Bool → List Bool
guarded_all s [] = []
guarded_all s (bit ∷ bits) = (guarded s bit).1 ∷ guarded_all (scramble s bit).0 bits

descramble-scramble :
    (p : Polynomial) (s : Scrambler) (d : Descrambler) (bit : Bool)
    → Agrees p p.b s d
    → (descramble d (scramble s bit).1).1 ≡ (guarded s bit).1
unfolding scramble descramble
descramble-scramble p s d bit (e, e', ls, ld, same) =
    let equal = Agrees-history p s d (e, e', ls, ld, same) in
    ap (λ t. xor (xor (guarded s bit).1 (taps s.polynomial s.history)) t)
      (ap₂ taps (e' ∙ sym e) (sym equal))
    ∙ xor-twice (guarded s bit).1 (taps s.polynomial s.history)

in_step :
    (p : Polynomial) (bits : List Bool) (s : Scrambler) (d : Descrambler)
    → Agrees p p.b s d
    → descramble_all d (scramble_all s bits) ≡ guarded_all s bits
unfolding scramble_all descramble_all
in_step p [] s d h = refl
in_step p (bit ∷ bits) s d h = ap₂ ◌∷◌ (descramble-scramble p s d bit h) (
    in_step p bits (scramble s bit).0 (descramble d (scramble s bit).1).0
      (stays-Agrees p s d bit h))

within :
    (p : Polynomial) (n k : ℕ) (bits : List Bool) (s : Scrambler) (d : Descrambler)
    → p.b ≤ 31
    → k + n ≡ p.b
    → Agrees p k s d
    → drop n (descramble_all d (scramble_all s bits)) ≡ drop n (guarded_all s bits)
unfolding scramble_all descramble_all
within p zero k bits s d h e agrees =
    in_step p bits s d (subst (λ j. Agrees p j s d) (omega arith) agrees)
within p (suc n) k [] s d h e agrees = refl
within p (suc n) k (bit ∷ bits) s d h e agrees =
    within p n (suc k) bits (scramble s bit).0 (descramble d (scramble s bit).1).0 h (omega arith)
      (step-Agrees p k s d bit h (omega arith) agrees)

-- The state of a scrambler whose history fits its polynomial.
abbrev pub Fits : Polynomial → ℕ → Type 0
Fits p history = (p.b ≤ 31) × (history < 2 ^ p.b)

-- What the line says of the input: where the guard is on and 64 ones in a row have been sent since
-- it last did so, it turns the next bit over.
abbrev pub turned : Bool → ℕ → List Bool → List Bool → List Bool
turned guard ones [] sent = []
turned guard ones (bit ∷ bits) [] = []
turned guard ones (bit ∷ bits) (out ∷ sent) =
    let over = guard && leb 64 ones in
    (if over then not bit else bit)
    ∷ turned guard (if out then (if over then 0 else ones) + 1 else 0) bits sent

guarded-turned :
    (over bit : Bool) (ones : ℕ)
    → ◌≡◌ {A = ℕ × Bool}
        (if over then (0, not bit) else (ones, bit))
        (if over then 0 else ones, if over then not bit else bit)
guarded-turned true bit ones = refl
guarded-turned false bit ones = refl

guarded_all-turned :
    (s : Scrambler) (bits : List Bool)
    → guarded_all s bits ≡ turned s.guard s.ones bits (scramble_all s bits)
unfolding scramble_all scramble guarded
guarded_all-turned s [] = refl
guarded_all-turned s (bit ∷ bits) =
    let (s', out) = scramble s bit in
    let both = guarded-turned (s.guard && leb 64 s.ones) bit s.ones in
    ap₂ ◌∷◌ (ap (λ (x : ℕ × Bool). x.1) both) (
      guarded_all-turned s' bits
      ∙ ap
          (λ (x : ℕ × Bool).
            turned s.guard (if out then x.0 + 1 else 0) bits (scramble_all s' bits))
          both)

-- Whatever a scrambler and a descrambler of the same polynomial, of at most 31 bits, have in their
-- histories, and whether or not the scrambler has the guard on, the descrambled stream is from bit `b` on
-- the scrambled one's input with the bits turned over that, by the line, the guard turned over: those
-- after 64 ones sent, and none without the guard.
pub descramble_all-turned :
    (p : Polynomial) (s : Scrambler) (d : Descrambler) (bits : List Bool)
    → s.polynomial ≡ p
    → d.polynomial ≡ p
    → Fits p s.history
    → Fits p d.history
    → drop p.b (descramble_all d (scramble_all s bits))
      ≡ drop p.b (turned s.guard s.ones bits (scramble_all s bits))
descramble_all-turned p s d bits e e' (h, ls) (_, ld) =
    within p p.b 0 bits s d h (omega arith) (e, e', ls, ld, omega arith)
    ∙ ap (drop p.b) (guarded_all-turned s bits)
