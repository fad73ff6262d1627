-- ===== src/Terminal/Command/Register.antt =====
-- About a line of command.rs that sets a register.
use softmodem_rs.Prelude.{
  ℕ, ◌≤◌, ◌≡◌, refl, ap, ◌∙◌, Bool, true, false, ◌&&◌, ◌==◌, ltb, if_cases, Option, some, List, [],
  ◌∷◌, ◌++◌, length, length-append, arith, holds_below, holds_below-true,
}
use softmodem_rs.Prelude.Result.{Result, ok, err}
use softmodem_rs.Terminal.Command.{Command, set_register}
use softmodem_rs.Terminal.Command.Parser.{
  Parser, ParseError, and_then, ◌>>=◌, next, give, fail, is_digit, span, extend, take_while,
  number_from, checked, number, u8_max, unwrap_or,
}
use softmodem_rs.Terminal.Command.Parse.{
  of_register, register, command, commands_from, normal, commands_of, parse,
}
use softmodem_rs.Terminal.Command.Loop.{commands_from-fuel}
use softmodem_rs.Terminal.Settings.Report.{decimal}

abbrev all_digits : List ℕ → Bool
all_digits [] = true
all_digits (d ∷ ds) = is_digit d && all_digits ds

abbrev pub starts_with_digit : List ℕ → Bool
starts_with_digit [] = false
starts_with_digit (b ∷ text) = is_digit b

abbrev is_decimal : ℕ → List ℕ → Bool
is_decimal n [] = false
is_decimal n (d ∷ ds) = all_digits (d ∷ ds) && number_from 0 (d ∷ ds) == n

decimals : holds_below 256 (λ n. is_decimal n (decimal n)) ≡ true
unfolding holds_below number_from
decimals = refl

decimal-is_decimal : (n : ℕ) → n ≤ 255 → is_decimal n (decimal n) ≡ true
decimal-is_decimal n h =
    holds_below-true 256 (λ n. is_decimal n (decimal n)) n decimals (omega arith)

is_decimal-all_digits : (n : ℕ) (ds : List ℕ) → is_decimal n ds ≡ true → all_digits ds ≡ true
is_decimal-all_digits n [] h = refl
is_decimal-all_digits n (d ∷ ds) h = ground (arith, h)

span-digits :
    (ds rest : List ℕ)
    → all_digits ds ≡ true
    → starts_with_digit rest ≡ false
    → span is_digit (ds ++ rest) ≡ (ds, rest)
unfolding span
span-digits [] [] h e = refl
span-digits [] (b ∷ rest) h e =
    if_cases (λ x. x ≡ ([], b ∷ rest)) (is_digit b) _ _ (λ yes. ground (arith, yes, e)) (λ _. refl)
span-digits (d ∷ ds) rest h e =
    if_cases (λ x. x ≡ (d ∷ ds, rest)) (is_digit d) _ _
      (λ _. ap (extend d) (span-digits ds rest (ground (arith, h)) e)) (λ no. ground (arith, no, h))

checked-decimal :
    (n : ℕ) (ds text : List ℕ)
    → n ≤ 255
    → is_decimal n ds ≡ true
    → checked u8_max ds text ≡ ok (some n, text)
unfolding give
checked-decimal n [] text h e = ground (arith, e)
checked-decimal n (d ∷ ds) text h e =
    if_cases (λ (m : Parser (Option ℕ)). m text ≡ ok (some n, text))
      (ltb u8_max (number_from 0 (d ∷ ds))) fail _ (λ above. ground (arith, above, h, e))
      (λ _. ap (λ v. ok (some v, text)) (ground (arith, e)))

number-decimal :
    (n : ℕ) (rest : List ℕ)
    → n ≤ 255
    → starts_with_digit rest ≡ false
    → number u8_max (decimal n ++ rest) ≡ ok (some n, rest)
unfolding number ◌>>=◌ take_while
number-decimal n rest h e =
    let d = decimal-is_decimal n h in
    ap (λ (x : List ℕ × List ℕ). and_then (ok x) (checked u8_max))
      (span-digits (decimal n) rest (is_decimal-all_digits n (decimal n) d) e)
    ∙ checked-decimal n (decimal n) rest h d

-- The text that sets a register.
abbrev pub set_text : ℕ → ℕ → List ℕ → List ℕ
set_text r v tail = b'S' ∷ (decimal r ++ b'=' ∷ (decimal v ++ tail))

command-set_text :
    (r v : ℕ) (tail : List ℕ)
    → r ≤ 255
    → v ≤ 255
    → starts_with_digit tail ≡ false
    → command b'S' (decimal r ++ b'=' ∷ (decimal v ++ tail)) ≡ ok (set_register r v, tail)
unfolding command register ◌>>=◌ next give
command-set_text r v tail hr hv e =
    ap (λ x. and_then x of_register) (number-decimal r (b'=' ∷ (decimal v ++ tail)) hr refl)
    ∙ ap (λ x. and_then x (λ n. give (set_register r (unwrap_or n 0)))) (number-decimal v tail hv e)

length-tail : (ds es t : List ℕ) → length t ≤ length (ds ++ b'=' ∷ (es ++ t))
length-tail ds es t = omega (arith, length-append ds (b'=' ∷ (es ++ t)), length-append es t)

-- A command before what the rest of a line is parsed to.
abbrev pub before : Command → Result ParseError (List Command) → Result ParseError (List Command)
before c (ok cs) = ok (c ∷ cs)
before c (err e) = err e

later-before :
    (c : Command) (r : Result ParseError (List Command × List ℕ))
    → commands_of (and_then r (λ later. give (c ∷ later))) ≡ before c (commands_of r)
unfolding give
later-before c (ok (cs, rest)) = refl
later-before c (err e) = refl

-- A line whose text, without spaces and in capitals, sets register `r` to `v` and goes on with no digit, is
-- parsed to the command that does, before the commands of what goes on; and it is refused where that is.
pub parse-set_text :
    (line tail : List ℕ) (r v : ℕ)
    → normal line ≡ set_text r v (normal tail)
    → r ≤ 255
    → v ≤ 255
    → starts_with_digit (normal tail) ≡ false
    → parse line ≡ before (set_register r v) (parse tail)
unfolding parse commands_from ◌>>=◌ next
parse-set_text line tail r v e hr hv d =
    let t = normal tail in
    let rest : List ℕ = decimal r ++ b'=' ∷ (decimal v ++ t) in
    ap (λ text. commands_of (commands_from (length text) text)) e
    ∙ ap
        (λ x.
          commands_of
            (and_then x (λ here. commands_from (length rest) >>= λ later. give (here ∷ later))))
        (command-set_text r v t hr hv d)
    ∙ later-before (set_register r v) (commands_from (length rest) t)
    ∙ ap (λ x. before (set_register r v) (commands_of x))
        (commands_from-fuel (length rest) (length t) t (length-tail (decimal r) (decimal v) t)
          (omega arith))
