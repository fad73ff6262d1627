-- ===== src/Terminal/Command/Parse.antt =====
-- softmodem-terminal/src/command.rs: `parse`, with the commands of one letter and the dial string.
use softmodem_rs.Prelude.{
  ℕ, zero, suc, ◌+◌, ◌-◌, Bool, true, false, not, ◌&&◌, ◌||◌, Option, none, some, List, [], ◌∷◌,
  ◌++◌, ◌==◌, leb, if◌then◌else◌, length,
}
use softmodem_rs.Prelude.Result.{Result, ok, err}
use softmodem_rs.Terminal.Command.{
  Dial, Command, answer, dial, echo, off_hook, identify, loudness, monitor, online, quiet, verbose,
  result_set, reset, factory_reset, carrier_detect, set_register, read_register, set_error_control,
  set_compression, ignored, manufacturer, model, revision, capabilities,
}
use softmodem_rs.Terminal.Command.Parser.{
  ParseError, parse_error, Parser, ◌>>=◌, give, fail, next, peek, skip, is_byte, is_digit,
  is_alphabetic, is_alphanumeric, take_while, number, u8_max, unwrap_or, value,
}
use softmodem_rs.Terminal.Command.Extended.{
  skip_extended, error_control, error_report, compression, compression_report, identity, fax_class,
  country, modulation, flag_value, same_text,
}

-- A byte of the number.
abbrev pub is_dialled : ℕ → Bool
is_dialled b = is_digit b || b == b'*' || b == b'#' || (leb b'A' b && leb b b'D')

-- A modifier without effect.
abbrev pub is_modifier : ℕ → Bool
is_modifier b =
    b == b'T'
    || b == b'P'
    || b == b'W'
    || b == b'@'
    || b == b'!'
    || b == b'-'
    || b == b'('
    || b == b')'
    || b == b'.'

abbrev pub is_empty : List ℕ → Bool
is_empty [] = true
is_empty (b ∷ text) = false

abbrev pub no_dial : Dial
no_dial = record {
  number = [];
  pauses = 0;
  after_answer = [];
  reverse = false;
  stay_in_command_mode = false;
  redial = false;
}

-- What a byte of the dial string does: it goes on, ends, or is refused.
pub data Dialled : Type 0 where
  more : Dial → Dialled
  ended : Dial → Dialled
  refused : Dialled

unfoldable pub dial_byte : Dial → ℕ → Dialled
dial_byte d b =
    if is_dialled b && not (is_empty d.after_answer)
    then more (record d { after_answer = d.after_answer ++ b ∷ [] })
    else if is_dialled b
    then more (record d { number = d.number ++ b ∷ [] })
    else if is_modifier b
    then more d
    else if b == b',' && is_empty d.number
    then more (record d { pauses = d.pauses + 1 })
    else if b == b','
    then more (record d { after_answer = d.after_answer ++ b',' ∷ [] })
    else if b == b'R'
    then more (record d { reverse = true })
    else if b == b'L'
    then more (record d { redial = true })
    else if b == b';'
    then ended (record d { stay_in_command_mode = true })
    else refused

unfoldable pub dial_from : Dial → Parser Dial
unfolding dial_byte
dial_from d [] = ok (d, [])
dial_from d (b ∷ text) = elim (dial_byte d b) [
  | more d' ↦ dial_from d' text
  | ended d' ↦ ok (d', text)
  | refused ↦ err parse_error
]

abbrev pub sign : ℕ → Option ℕ → Parser Command
sign r byte =
    if is_byte byte b'='
    then (do n ← number u8_max; give (set_register r (unwrap_or n 0)))
    else if is_byte byte b'?'
    then give (read_register r)
    else fail

abbrev pub of_register : Option ℕ → Parser Command
of_register none = fail
of_register (some r) = do byte ← next; sign r byte

unfoldable pub register : Parser Command
register = do n ← number u8_max; of_register n

-- `\N` for the three subparameters of `+ES`.
abbrev pub fallback : ℕ → Command
fallback zero = set_error_control (some 1) (some 0) (some 1)
fallback (suc zero) = set_error_control (some 1) (some 0) (some 1)
fallback (suc (suc zero)) = set_error_control (some 3) (some 3) (some 5)
fallback (suc (suc (suc n))) = set_error_control (some 3) (some 0) (some 2)

abbrev pub is_letter : Option ℕ → Bool
is_letter none = false
is_letter (some b) = is_alphabetic b

-- The commands after `&`, `\` and `%`.
unfoldable pub prefixed : ℕ → Parser Command
prefixed letter = do
  byte ← peek
  if letter == b'&' && is_byte byte b'C'
      then (skip >>= λ _. flag_value >>= λ on. give (carrier_detect on))
      else if letter == b'&' && is_byte byte b'F'
      then (skip >>= λ _. value 0 >>= λ _. give factory_reset)
      else if letter == b'\\' && is_byte byte b'N'
      then (skip >>= λ _. value 3 >>= λ n. give (fallback n))
      else if letter == b'%' && is_byte byte b'C'
      then (skip >>= λ _.
          value 3 >>= λ n. give (set_compression (some (if n == 0 then 0 else 3)) none none none))
      else (next >>= λ name. if is_letter name then (number u8_max >>= λ _. give ignored) else fail)

-- The extended commands, by their names.
unfoldable pub named : List ℕ → Parser Command
named text =
    if same_text text (b'M' ∷ b'S' ∷ [])
    then modulation
    else if same_text text (b'E' ∷ b'S' ∷ [])
    then error_control
    else if same_text text (b'E' ∷ b'R' ∷ [])
    then error_report
    else if same_text text (b'D' ∷ b'S' ∷ [])
    then compression
    else if same_text text (b'D' ∷ b'R' ∷ [])
    then compression_report
    else if same_text text (b'G' ∷ b'M' ∷ b'I' ∷ [])
    then identity manufacturer
    else if same_text text (b'G' ∷ b'M' ∷ b'M' ∷ [])
    then identity model
    else if same_text text (b'G' ∷ b'M' ∷ b'R' ∷ [])
    then identity revision
    else if same_text text (b'G' ∷ b'C' ∷ b'A' ∷ b'P' ∷ [])
    then identity capabilities
    else if same_text text (b'F' ∷ b'C' ∷ b'L' ∷ b'A' ∷ b'S' ∷ b'S' ∷ [])
    then fax_class
    else if same_text text (b'G' ∷ b'C' ∷ b'I' ∷ [])
    then country
    else skip_extended

unfoldable pub extended : Parser Command
extended = do text ← take_while is_alphanumeric; named text

abbrev pub counted : ℕ → (ℕ → Command) → Parser Command
counted max' command = do n ← value max'; give (command n)

abbrev pub switched : (Bool → Command) → Parser Command
switched command = do on ← flag_value; give (command on)

-- A letter whose number does nothing.
abbrev pub is_ignored : ℕ → Bool
is_ignored b =
    b == b'B' || b == b'C' || b == b'N' || b == b'P' || b == b'T' || b == b'W' || b == b'Y'

unfoldable pub command : ℕ → Parser Command
command letter =
    if letter == b'A'
    then counted 0 (λ n. answer)
    else if letter == b'D'
    then (dial_from no_dial >>= λ d. give (dial d))
    else if letter == b'E'
    then switched echo
    else if letter == b'H'
    then switched off_hook
    else if letter == b'I'
    then counted 9 identify
    else if letter == b'L'
    then counted 3 loudness
    else if letter == b'M'
    then counted 2 monitor
    else if letter == b'O'
    then switched online
    else if letter == b'Q'
    then switched quiet
    else if letter == b'V'
    then switched verbose
    else if letter == b'X'
    then counted 4 result_set
    else if letter == b'Z'
    then counted 1 (λ n. reset)
    else if letter == b'S'
    then register
    else if is_ignored letter
    then (number u8_max >>= λ _. give ignored)
    else if letter == b'&' || letter == b'\\' || letter == b'%'
    then prefixed letter
    else if letter == b'+'
    then extended
    else fail

-- The loop of `parse`: every turn takes the letter of a command.
unfoldable pub commands_from : ℕ → Parser (List Command)
commands_from zero = give []
commands_from (suc fuel) = do
  letter ← next
  elim letter [
    | none ↦ give []
    | some b ↦ do here ← command b; later ← commands_from fuel; give (here ∷ later)
  ]

abbrev pub uppercase : ℕ → ℕ
uppercase b = if leb b'a' b && leb b b'z' then b - 32 else b

-- The text without its spaces, in capitals.
unfoldable pub normal : List ℕ → List ℕ
normal [] = []
normal (b ∷ line) = let rest = normal line in if b == b' ' then rest else uppercase b ∷ rest

abbrev pub commands_of :
    Result ParseError (List Command × List ℕ) → Result ParseError (List Command)
commands_of (ok (commands, rest)) = ok commands
commands_of (err e) = err e

unfoldable pub parse : List ℕ → Result ParseError (List Command)
unfolding normal commands_from
parse line = let text = normal line in commands_of (commands_from (length text) text)
