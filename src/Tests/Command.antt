-- ===== src/Tests/Command.antt =====
-- command.rs at concrete lines.
use softmodem_rs.Prelude.{◌≡◌, refl, List, [], ◌∷◌, All, ℕ, true, arith}
use softmodem_rs.Prelude.Result.{ok}
use softmodem_rs.Terminal.Command.{Command, set_register, echo}
use softmodem_rs.Terminal.Command.Parser.{
  ◌>>=◌, give, next, take_while, span, number_from, number, value,
}
use softmodem_rs.Terminal.Command.Extended.{flag_value}
use softmodem_rs.Terminal.Command.Parse.{normal, commands_from, command, register, parse}
use softmodem_rs.Terminal.Command.Ranges.{IsCommand}
use softmodem_rs.Terminal.Command.Ranges.Line.{parse-IsCommand}
use softmodem_rs.Terminal.Command.Loop.{commands_from-fuel}
use softmodem_rs.Terminal.Command.Register.{before, parse-set_text}

-- `s0=2 E1` and what follows the register in it.
abbrev tail : List ℕ
tail = b' ' ∷ b'E' ∷ b'1' ∷ []

abbrev line : List ℕ
line = b's' ∷ b'0' ∷ b'=' ∷ b'2' ∷ tail

abbrev commands : List Command
commands = set_register 0 2 ∷ echo true ∷ []

parsed : parse line ≡ ok commands
unfolding parse normal commands_from command register flag_value value number take_while span
    number_from ◌>>=◌ give next
parsed = refl

parse-IsCommand_example : All IsCommand commands
parse-IsCommand_example = parse-IsCommand line commands parsed

commands_from-fuel_example :
    commands_from 4 (b'E' ∷ b'1' ∷ b'Z' ∷ []) ≡ commands_from 3 (b'E' ∷ b'1' ∷ b'Z' ∷ [])
commands_from-fuel_example =
    commands_from-fuel 4 3 (b'E' ∷ b'1' ∷ b'Z' ∷ []) (omega arith) (omega arith)

parse-set_text_example : parse line ≡ before (set_register 0 2) (parse tail)
unfolding normal
parse-set_text_example = parse-set_text line tail 0 2 refl (omega arith) (omega arith) refl
