-- ===== src/Terminal/Command/Ranges.antt =====
-- About the values of the commands of command.rs: their ranges, and the numbered parameters.
pub mod Extended
pub mod Line
use softmodem_rs.Prelude.{
  ℕ, zero, suc, ◌+◌, ◌≤◌, ◌<◌, ◌≡◌, refl, subst, Bool, true, false, ◌&&◌, ◌||◌, if◌then◌else◌,
  Option, none, some, List, [], ◌∷◌, length, All, arith, ltb, leb, ◌==◌, replicate, get_or,
}
use softmodem_rs.Prelude.Result.{Result, ok, err}
use softmodem_rs.Terminal.Command.{
  Carrier, carriers, name, Dial, Query, Command, answer, dial, echo, off_hook, identify, loudness,
  monitor, online, quiet, verbose, result_set, reset, factory_reset, carrier_detect, set_register,
  read_register, set_carrier, set_error_control, report_error_control, read_error_report,
  list_error_report, read_compression_report, list_compression_report, set_compression,
  report_compression, asks, ignored, manufacturer, model, revision, capabilities,
}
use softmodem_rs.Terminal.Command.Parser.{
  Parser, ParseError, parse_error, ◌>>=◌, give, fail, next, peek, skip, is_byte, number, unwrap_or,
  value, u8_max, u16_max, u32_max, i32_max,
}
use softmodem_rs.Terminal.Command.Parser.Yields.{
  Yields, bind-Yields, give-Yields, fail-Yields, if-Yields, either-Yields, Anything, next-Yields,
  skip-Yields, peek-Yields, take_while-Yields, Within, number-Yields, value-Yields, Gives,
}
use softmodem_rs.Terminal.Command.Parse.{
  no_dial, dial_byte, Dialled, more, ended, refused, dial_from, sign, of_register, register,
  fallback, is_letter, prefixed, named, extended, counted, switched, is_ignored, command,
  commands_from, normal, commands_of, parse,
}
use softmodem_rs.Terminal.Command.Extended.{
  skip_extended, after_semicolon, end_extended, ends, Range, contains, subparameter, within,
  more_subparameters, subparameters, nth, small, parameter, set_errors, error_control,
  set_compressing, compression, compression_ranges, is_one, flag_value, compression_report,
  error_report, peek_asked, identity, fax_class, country, find_carrier, same_text, automode_of,
  automode, rates_from, rates, positive, set_modulation, modulation,
}

abbrev pub IsCommand : Command → Type 0
IsCommand (identify n) = n ≤ 9
IsCommand (loudness n) = n ≤ 3
IsCommand (monitor n) = n ≤ 2
IsCommand (result_set n) = n ≤ 4
IsCommand (set_register r n) = (r ≤ 255) × (n ≤ 255)
IsCommand (read_register r) = r ≤ 255
IsCommand (set_carrier c auto rate) = Within 1 u32_max rate
IsCommand (set_error_control a b c) = Within 0 3 a × Within 0 3 b × Within 0 5 c
IsCommand (set_compression d required codewords string) =
    Within 0 3 d × Within 512 65535 codewords × Within 6 250 string
IsCommand _ = Unit

after_semicolon-le : (text : List ℕ) → length (after_semicolon text) ≤ length text
unfolding after_semicolon
after_semicolon-le [] = omega arith
after_semicolon-le (b ∷ text) = ground (arith, after_semicolon-le text)

pub skip_extended-Yields : Yields skip_extended IsCommand
unfolding skip_extended
skip_extended-Yields = record { yields = λ text. (tt, after_semicolon-le text) }

pub end_extended-Yields : (c : Command) → IsCommand c → Yields (end_extended c) IsCommand
unfolding end_extended
end_extended-Yields c h =
    bind-Yields _ next-Yields (λ b _. either-Yields (ends b) (give-Yields c h) fail-Yields)

-- The values that `subparameters` gives, each in its range or left out.
abbrev pub Fits : List Range → List (Option ℕ) → Type 0
Fits [] vs = Unit
Fits (r ∷ rs) [] = ⊥
Fits (r ∷ rs) (v ∷ vs) = Within r.0 r.1 v × Fits rs vs

nones-Fits : (rs : List Range) → Fits rs (replicate (length rs) none)
nones-Fits [] = tt
nones-Fits (r ∷ rs) = (tt, nones-Fits rs)

within-Yields : (r : Range) (n : Option ℕ) → Yields (within r n) (Within r.0 r.1)
within-Yields r none = give-Yields none tt
within-Yields (low, high) (some n) =
    if-Yields (contains (low, high) n) (λ h. give-Yields (some n) (ground arith)) (λ _. fail-Yields)

subparameter-Yields : (r : Range) → Yields (subparameter r) (Within r.0 r.1)
unfolding subparameter
subparameter-Yields r = bind-Yields _ (number-Yields u16_max) (λ n _. within-Yields r n)

more-Yields : (rs : List Range) → Yields (more_subparameters rs) (Fits rs)
unfolding more_subparameters
more-Yields [] = give-Yields [] tt
more-Yields (r ∷ rs) = bind-Yields _ peek-Yields (λ comma _.
    either-Yields (is_byte comma b',')
      (bind-Yields _ skip-Yields (λ s _.
        bind-Yields _ (subparameter-Yields r)
          (λ n h. bind-Yields _ (more-Yields rs) (λ ns hs. give-Yields (n ∷ ns) (h, hs)))))
      (give-Yields (none ∷ replicate (length rs) none) (tt, nones-Fits rs)))

pub subparameters-Yields :
    (r : Range) (rs : List Range) → Yields (subparameters r rs) (Fits (r ∷ rs))
unfolding subparameters
subparameters-Yields r rs =
    bind-Yields _ (subparameter-Yields r)
      (λ n h. bind-Yields _ (more-Yields rs) (λ ns hs. give-Yields (n ∷ ns) (h, hs)))

pub parameter-Yields :
    (read list : Command) (set : Parser Command)
    → IsCommand read
    → IsCommand list
    → Yields set IsCommand
    → Yields (parameter read list set) IsCommand
unfolding parameter
parameter-Yields read list set r l h = bind-Yields _ next-Yields (λ sign _.
    bind-Yields _ peek-Yields (λ question _.
      either-Yields (is_byte sign b'?') (end_extended-Yields read r) (
        either-Yields (is_byte sign b'=' && is_byte question b'?')
          (bind-Yields _ skip-Yields (λ s _. end_extended-Yields list l))
          (either-Yields (is_byte sign b'=') (bind-Yields _ h (λ c k. end_extended-Yields c k))
            fail-Yields))))
