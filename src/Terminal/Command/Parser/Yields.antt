-- ===== src/Terminal/Command/Parser/Yields.antt =====
-- About the parsers of command.rs: what one gives when it gives something, and what it leaves.
use softmodem_rs.Prelude.{
  ℕ, ◌≤◌, ◌≡◌, Bool, true, false, if◌then◌else◌, if_cases, Option, none, some, List, [], ◌∷◌,
  length, arith, ltb,
}
use softmodem_rs.Prelude.Result.{Result, ok, err}
use softmodem_rs.Terminal.Command.Parser.{
  ParseError, Parser, ◌>>=◌, and_then, give, fail, next, peek, skip, span, take_while, checked,
  number, unwrap_or, value, number_from, u8_max,
}

-- Nothing on a failure.
abbrev pub Gives : {A : Type 0} → (A → Type 0) → List ℕ → Result ParseError (A × List ℕ) → Type 0
Gives P text (ok (a, rest)) = P a × (length rest ≤ length text)
Gives P text (err e) = Unit

pub record Yields {A : Type 0} (m : Parser A) (P : A → Type 0) : Type 0 where
  pub yields : (text : List ℕ) → Gives P text (m text)

and_then-Gives :
    {A B : Type 0} (P : A → Type 0) (Q : B → Type 0) (f : A → Parser B) (text : List ℕ)
    (r : Result ParseError (A × List ℕ))
    → Gives P text r
    → ((a : A) → P a → Yields (f a) Q)
    → Gives Q text (and_then r f)
and_then-Gives P Q f text (err e) h k = tt
and_then-Gives {A} {B} P Q f text (ok (a, rest)) (p, le) k =
    shorter (f a rest) ((k a p).yields rest)
  where
    shorter : (r : Result ParseError (B × List ℕ)) → Gives Q rest r → Gives Q text r
    shorter (err e) h = tt
    shorter (ok (b, rest')) (q, le') = (q, omega arith)

pub bind-Yields :
    {A B : Type 0} {m : Parser A} {P : A → Type 0} {Q : B → Type 0} (f : A → Parser B)
    → Yields m P
    → ((a : A) → P a → Yields (f a) Q)
    → Yields (m >>= f) Q
unfolding ◌>>=◌
bind-Yields {A} {B} {m} {P} {Q} f h k = record {
  yields = λ text. and_then-Gives P Q f text (m text) (h.yields text) k;
}

pub give-Yields : {A : Type 0} {P : A → Type 0} (a : A) → P a → Yields (give a) P
unfolding give
give-Yields a p = record { yields = λ text. (p, omega arith) }

pub fail-Yields : {A : Type 0} {P : A → Type 0} → Yields (fail {A = A}) P
unfolding fail
fail-Yields = record { yields = λ text. tt }

pub if-Yields :
    {A : Type 0} {P : A → Type 0} {m k : Parser A} (b : Bool)
    → (b ≡ true → Yields m P)
    → (b ≡ false → Yields k P)
    → Yields (if b then m else k) P
if-Yields {A} {P} {m} {k} b h h' = if_cases (λ (x : Parser A). Yields x P) b m k h h'

-- Either way, whatever the test.
pub either-Yields :
    {A : Type 0} {P : A → Type 0} {m k : Parser A} (b : Bool)
    → Yields m P
    → Yields k P
    → Yields (if b then m else k) P
either-Yields b h h' = if-Yields b (λ _. h) (λ _. h')

abbrev pub Anything : {A : Type 0} → A → Type 0
Anything a = Unit

pub next-Yields : Yields next Anything
unfolding next
next-Yields = record { yields = λ text. moves_on text }
  where
    moves_on : (text : List ℕ) → Gives Anything text (next text)
    moves_on [] = (tt, omega arith)
    moves_on (b ∷ rest) = (tt, omega arith)

pub skip-Yields : Yields skip Anything
unfolding skip next
skip-Yields = record { yields = next-Yields.yields }

pub peek-Yields : Yields peek Anything
unfolding peek
peek-Yields = record { yields = λ text. (tt, omega arith) }

span-le : (test : ℕ → Bool) (text : List ℕ) → length (span test text).1 ≤ length text
unfolding span
span-le test [] = omega arith
span-le test (b ∷ text) = ground (arith, span-le test text)

pub take_while-Yields : (test : ℕ → Bool) → Yields (take_while test) Anything
unfolding take_while
take_while-Yields test = record { yields = λ text. (tt, span-le test text) }

abbrev pub Within : ℕ → ℕ → Option ℕ → Type 0
Within low high none = Unit
Within low high (some n) = (low ≤ n) × (n ≤ high)

checked-Yields : (most : ℕ) (digits : List ℕ) → Yields (checked most digits) (Within 0 most)
checked-Yields most [] = give-Yields none tt
checked-Yields most (d ∷ digits) =
    let n = number_from 0 (d ∷ digits) in
    if-Yields (ltb most n) (λ _. fail-Yields) (λ fits. give-Yields (some n) (ground arith))

pub number-Yields : (most : ℕ) → Yields (number most) (Within 0 most)
unfolding number
number-Yields most = bind-Yields _ (take_while-Yields _) (λ digits _. checked-Yields most digits)

pub value-Yields : (max' : ℕ) → Yields (value max') (λ n. n ≤ max')
unfolding value
value-Yields max' = bind-Yields _ (number-Yields u8_max) (λ n _.
    if-Yields (ltb max' (unwrap_or n 0)) (λ _. fail-Yields)
      (λ fits. give-Yields (unwrap_or n 0) (ground arith)))
