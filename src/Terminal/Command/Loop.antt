-- ===== src/Terminal/Command/Loop.antt =====
-- About the loop of `parse` in command.rs and its fuel.
use softmodem_rs.Prelude.{ℕ, zero, suc, ◌≤◌, ◌≡◌, refl, ap, List, [], ◌∷◌, length, arith}
use softmodem_rs.Prelude.Result.{Result, ok, err}
use softmodem_rs.Terminal.Command.Parser.{Parser, ParseError, and_then, ◌>>=◌, next, give}
use softmodem_rs.Terminal.Command.Parser.Yields.{Gives}
use softmodem_rs.Terminal.Command.Parse.{command, commands_from}
use softmodem_rs.Terminal.Command.Ranges.{IsCommand}
use softmodem_rs.Terminal.Command.Ranges.Line.{command-Yields}

-- Parsers that agree on what is left agree after a parser that takes no text back.
and_then-ext :
    {A B : Type 0} (P : A → Type 0) (text : List ℕ) (r : Result ParseError (A × List ℕ))
    (f g : A → Parser B)
    → Gives P text r
    → ((a : A) (rest : List ℕ) → length rest ≤ length text → f a rest ≡ g a rest)
    → and_then r f ≡ and_then r g
and_then-ext P text (err e) f g h k = refl
and_then-ext P text (ok (a, rest)) f g (p, le) k = k a rest le

-- Above the length of the text, the fuel of the loop makes no difference: it never cuts the loop short.
pub commands_from-fuel :
    (n m : ℕ) (text : List ℕ)
    → length text ≤ n
    → length text ≤ m
    → commands_from n text ≡ commands_from m text
unfolding commands_from ◌>>=◌ next give
commands_from-fuel zero zero text h k = refl
commands_from-fuel zero (suc m) [] h k = refl
commands_from-fuel zero (suc m) (b ∷ text) h k = ground (arith, h)
commands_from-fuel (suc n) zero [] h k = refl
commands_from-fuel (suc n) zero (b ∷ text) h k = ground (arith, k)
commands_from-fuel (suc n) (suc m) [] h k = refl
commands_from-fuel (suc n) (suc m) (b ∷ text) h k =
    and_then-ext IsCommand text (command b text) _ _ ((command-Yields b).yields text) (λ c rest le.
      ap (λ r. and_then r (λ later. give (c ∷ later)))
        (commands_from-fuel n m rest (omega arith) (omega arith)))
