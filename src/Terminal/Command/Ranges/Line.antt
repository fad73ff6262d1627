-- ===== src/Terminal/Command/Ranges/Line.antt =====
-- The commands of a line of command.rs.
use softmodem_rs.Prelude.{
  ℕ, zero, suc, ◌≤◌, ◌≡◌, subst, Bool, ◌&&◌, if◌then◌else◌, Option, none, some, List, [], ◌∷◌,
  length, All, arith, ◌==◌,
}
use softmodem_rs.Prelude.Result.{Result, ok, err}
use softmodem_rs.Terminal.Command.{
  Dial, Command, answer, dial, echo, off_hook, identify, loudness, monitor, online, quiet, verbose,
  result_set, reset, factory_reset, carrier_detect, set_register, read_register, set_compression,
  ignored, manufacturer, model, revision, capabilities,
}
use softmodem_rs.Terminal.Command.Parser.{
  ParseError, parse_error, ◌>>=◌, give, fail, is_byte, number, unwrap_or, value, u8_max,
}
use softmodem_rs.Terminal.Command.Parser.Yields.{
  Yields, bind-Yields, give-Yields, fail-Yields, either-Yields, Anything, next-Yields, skip-Yields,
  peek-Yields, take_while-Yields, Within, number-Yields, value-Yields, Gives,
}
use softmodem_rs.Terminal.Command.Parse.{
  no_dial, dial_byte, Dialled, more, ended, refused, dial_from, sign, of_register, register,
  fallback, is_letter, prefixed, named, extended, counted, switched, command, commands_from, normal,
  commands_of, parse,
}
use softmodem_rs.Terminal.Command.Extended.{same_text}
use softmodem_rs.Terminal.Command.Ranges.{IsCommand, skip_extended-Yields}
use softmodem_rs.Terminal.Command.Ranges.Extended.{
  error_control-Yields, compression-Yields, flag_value-Yields, identity-Yields, fax_class-Yields,
  country-Yields, modulation-Yields, error_report-Yields, compression_report-Yields,
}

named-Yields : (text : List ℕ) → Yields (named text) IsCommand
unfolding named
named-Yields text = either-Yields _ modulation-Yields (
    either-Yields _ error_control-Yields (
      either-Yields _ error_report-Yields (
        either-Yields _ compression-Yields (
          either-Yields _ compression_report-Yields (
            either-Yields (same_text text (b'G' ∷ b'M' ∷ b'I' ∷ [])) (identity-Yields manufacturer)
              (either-Yields (same_text text (b'G' ∷ b'M' ∷ b'M' ∷ [])) (identity-Yields model) (
                either-Yields (same_text text (b'G' ∷ b'M' ∷ b'R' ∷ [])) (identity-Yields revision)
                  (either-Yields (same_text text (b'G' ∷ b'C' ∷ b'A' ∷ b'P' ∷ []))
                    (identity-Yields capabilities)
                    (either-Yields (same_text text (b'F' ∷ b'C' ∷ b'L' ∷ b'A' ∷ b'S' ∷ b'S' ∷ []))
                      fax_class-Yields
                      (either-Yields (same_text text (b'G' ∷ b'C' ∷ b'I' ∷ [])) country-Yields
                        skip_extended-Yields))))))))))

sign-Yields : (r : ℕ) (byte : Option ℕ) → r ≤ 255 → Yields (sign r byte) IsCommand
sign-Yields r byte h =
    either-Yields (is_byte byte b'=')
      (bind-Yields _ (number-Yields u8_max)
        (λ n k. give-Yields (set_register r (unwrap_or n 0)) (h, byte_value n k)))
      (either-Yields (is_byte byte b'?') (give-Yields (read_register r) h) fail-Yields)
  where
    byte_value : (n : Option ℕ) → Within 0 u8_max n → unwrap_or n 0 ≤ 255
    byte_value none k = omega arith
    byte_value (some n) (_, k) = k

of_register-Yields : (r : Option ℕ) → Within 0 u8_max r → Yields (of_register r) IsCommand
of_register-Yields none h = fail-Yields
of_register-Yields (some r) (_, h) = bind-Yields _ next-Yields (λ b _. sign-Yields r b h)

register-Yields : Yields register IsCommand
unfolding register
register-Yields = bind-Yields _ (number-Yields u8_max) (λ r h. of_register-Yields r h)

fallback-IsCommand : (n : ℕ) → IsCommand (fallback n)
fallback-IsCommand zero = ground arith
fallback-IsCommand (suc zero) = ground arith
fallback-IsCommand (suc (suc zero)) = ground arith
fallback-IsCommand (suc (suc (suc n))) = ground arith

packed-IsCommand :
    (n : ℕ) → IsCommand (set_compression (some (if n == 0 then 0 else 3)) none none none)
packed-IsCommand zero = (ground arith, tt, tt)
packed-IsCommand (suc n) = (ground arith, tt, tt)

prefixed-Yields : (letter : ℕ) → Yields (prefixed letter) IsCommand
unfolding prefixed
prefixed-Yields letter = bind-Yields _ peek-Yields (λ b _.
    either-Yields (letter == b'&' && is_byte b b'C')
      (bind-Yields _ skip-Yields
        (λ s _. bind-Yields _ flag_value-Yields (λ on _. give-Yields (carrier_detect on) tt)))
      (either-Yields (letter == b'&' && is_byte b b'F')
        (bind-Yields _ skip-Yields
          (λ s _. bind-Yields _ (value-Yields 0) (λ n _. give-Yields factory_reset tt)))
        (either-Yields (letter == b'\\' && is_byte b b'N')
          (bind-Yields _ skip-Yields (λ s _.
            bind-Yields _ (value-Yields 3)
              (λ n _. give-Yields (fallback n) (fallback-IsCommand n))))
          (either-Yields (letter == b'%' && is_byte b b'C')
            (bind-Yields
              (λ s. value 3 >>= λ n.
                give (set_compression (some (if n == 0 then 0 else 3)) none none none))
              skip-Yields
              (λ s _.
                bind-Yields
                  (λ n. give (set_compression (some (if n == 0 then 0 else 3)) none none none))
                  (value-Yields 3)
                  (λ n _.
                    give-Yields (set_compression (some (if n == 0 then 0 else 3)) none none none)
                      (packed-IsCommand n))))
            (bind-Yields
              (λ name. if is_letter name then (number u8_max >>= λ _. give ignored) else fail)
              next-Yields
              (λ name _.
                either-Yields (is_letter name)
                  (bind-Yields _ (number-Yields u8_max) (λ n _. give-Yields ignored tt))
                  fail-Yields))))))

cons-Gives :
    {A : Type 0} (b : ℕ) (text : List ℕ) (r : Result ParseError (A × List ℕ))
    → Gives Anything text r
    → Gives Anything (b ∷ text) r
cons-Gives b text (ok (a, rest)) (p, le) = (p, omega arith)
cons-Gives b text (err e) h = tt

dial_byte-Gives :
    (b : ℕ) (text : List ℕ) (s : Dialled)
    → ((d : Dial) → Gives Anything text (dial_from d text))
    → Gives Anything (b ∷ text) (elim s [
      | more d' ↦ dial_from d' text
      | ended d' ↦ ok (d', text)
      | refused ↦ err parse_error
    ])
dial_byte-Gives b text (more d') h = cons-Gives b text (dial_from d' text) (h d')
dial_byte-Gives b text (ended d') h = (tt, omega arith)
dial_byte-Gives b text refused h = tt

dial_from-le : (text : List ℕ) (d : Dial) → Gives Anything text (dial_from d text)
unfolding dial_from
dial_from-le [] d = (tt, omega arith)
dial_from-le (b ∷ text) d = dial_byte-Gives b text (dial_byte d b) (dial_from-le text)

dial_from-Yields : (d : Dial) → Yields (dial_from d) Anything
dial_from-Yields d = record { yields = λ text. dial_from-le text d }

extended-Yields : Yields extended IsCommand
unfolding extended
extended-Yields = bind-Yields _ (take_while-Yields _) (λ text _. named-Yields text)

counted-Yields :
    (most : ℕ) (c : ℕ → Command)
    → ((n : ℕ) → n ≤ most → IsCommand (c n))
    → Yields (counted most c) IsCommand
counted-Yields most c h = bind-Yields _ (value-Yields most) (λ n k. give-Yields (c n) (h n k))

switched-Yields :
    (c : Bool → Command) → ((on : Bool) → IsCommand (c on)) → Yields (switched c) IsCommand
switched-Yields c h = bind-Yields _ flag_value-Yields (λ on _. give-Yields (c on) (h on))

pub command-Yields : (letter : ℕ) → Yields (command letter) IsCommand
unfolding command
command-Yields letter = either-Yields _ (counted-Yields 0 (λ n. answer) (λ n _. tt)) (
    either-Yields _ (bind-Yields _ (dial_from-Yields no_dial) (λ d _. give-Yields (dial d) tt)) (
      either-Yields _ (switched-Yields echo (λ on. tt)) (
        either-Yields _ (switched-Yields off_hook (λ on. tt)) (
          either-Yields _ (counted-Yields 9 identify (λ n h. h)) (
            either-Yields _ (counted-Yields 3 loudness (λ n h. h)) (
              either-Yields _ (counted-Yields 2 monitor (λ n h. h)) (
                either-Yields _ (switched-Yields online (λ on. tt)) (
                  either-Yields _ (switched-Yields quiet (λ on. tt)) (
                    either-Yields _ (switched-Yields verbose (λ on. tt)) (
                      either-Yields _ (counted-Yields 4 result_set (λ n h. h)) (
                        either-Yields _ (counted-Yields 1 (λ n. reset) (λ n _. tt)) (
                          either-Yields _ register-Yields (
                            either-Yields _
                              (bind-Yields _ (number-Yields u8_max) (λ n _. give-Yields ignored tt))
                              (either-Yields _ (prefixed-Yields letter)
                                (either-Yields _ extended-Yields fail-Yields)))))))))))))))

abbrev AreCommands : List Command → Type 0
AreCommands cs = All IsCommand cs

letter-Yields :
    (fuel : ℕ) (letter : Option ℕ)
    → Yields (commands_from fuel) AreCommands
    → Yields
        (elim letter [
          | none ↦ give []
          | some b ↦ command b >>= λ here. commands_from fuel >>= λ later. give (here ∷ later)
        ])
        AreCommands
letter-Yields fuel none h = give-Yields [] tt
letter-Yields fuel (some b) h =
    bind-Yields _ (command-Yields b)
      (λ c k. bind-Yields _ h (λ cs ks. give-Yields (c ∷ cs) (k, ks)))

commands_from-Yields : (fuel : ℕ) → Yields (commands_from fuel) AreCommands
unfolding commands_from
commands_from-Yields zero = give-Yields [] tt
commands_from-Yields (suc fuel) =
    bind-Yields _ next-Yields (λ letter _. letter-Yields fuel letter (commands_from-Yields fuel))

-- The commands of a result, none of a refused line.
abbrev found : Result ParseError (List Command) → List Command
found (ok cs) = cs
found (err e) = []

commands_of-IsCommand :
    (text : List ℕ) (r : Result ParseError (List Command × List ℕ))
    → Gives AreCommands text r
    → All IsCommand (found (commands_of r))
commands_of-IsCommand text (ok (cs, rest)) (h, _) = h
commands_of-IsCommand text (err e) h = tt

-- Whatever the line, every command that it is parsed to has its values in their ranges: those of the
-- letters, of the registers, of the rate, of `+ES` and of `+DS`.
pub parse-IsCommand : (line : List ℕ) (cs : List Command) → parse line ≡ ok cs → All IsCommand cs
unfolding parse
parse-IsCommand line cs e =
    let text = normal line in
    subst (λ r. All IsCommand (found r)) e
      (commands_of-IsCommand text (commands_from (length text) text)
        ((commands_from-Yields (length text)).yields text))
