-- ===== src/Modem/Information.antt =====
-- softmodem/src/modem.rs: what the modem answers to the commands that ask. The version that the build
-- gives is the argument `version`.
use softmodem_rs.Prelude.{
  ℕ, ◌+◌, ◌/◌, ◌%◌, Bool, Option, none, some, List, [], ◌∷◌, ◌++◌, map, ◌==◌, if◌then◌else◌,
}
use softmodem_rs.Terminal.Command.{
  carriers, name, Query, manufacturer, model, revision, capabilities, class, classes, country,
  countries, Command, identify, read_register, read_carrier, list_carriers, read_error_control,
  list_error_control, read_error_report, list_error_report, read_compression, list_compression,
  read_compression_report, list_compression_report, asks,
}
use softmodem_rs.Terminal.Settings.{Settings, register}
use softmodem_rs.Terminal.Settings.Report.{decimal}

-- `u8::from` of a truth value, printed.
abbrev pub flag : Bool → List ℕ
flag on = (if on then b'1' else b'0') ∷ []

-- `{:03}` of a byte.
abbrev pub three_digits : ℕ → List ℕ
three_digits n = (b'0' + n / 100) ∷ (b'0' + n / 10 % 10) ∷ (b'0' + n % 10) ∷ []

abbrev pub product : List ℕ
product = b's' ∷ b'o' ∷ b'f' ∷ b't' ∷ b'm' ∷ b'o' ∷ b'd' ∷ b'e' ∷ b'm' ∷ []

abbrev pub features : List ℕ
features =
    b'V' ∷ b'.' ∷ b'2' ∷ b'1' ∷ b' ' ∷ b'3' ∷ b'0' ∷ b'0' ∷ b' ' ∷ b'b' ∷ b'i' ∷ b't' ∷ b'/' ∷ b's'
    ∷ b',' ∷ b' ' ∷ b'V' ∷ b'.' ∷ b'2' ∷ b'2' ∷ b' ' ∷ b'1' ∷ b'2' ∷ b'0' ∷ b'0' ∷ b' ' ∷ b'b'
    ∷ b'i' ∷ b't' ∷ b'/' ∷ b's' ∷ b',' ∷ b' ' ∷ b'V' ∷ b'.' ∷ b'2' ∷ b'2' ∷ b'b' ∷ b'i' ∷ b's'
    ∷ b' ' ∷ b'2' ∷ b'4' ∷ b'0' ∷ b'0' ∷ b' ' ∷ b'b' ∷ b'i' ∷ b't' ∷ b'/' ∷ b's' ∷ b',' ∷ b' '
    ∷ b'V' ∷ b'.' ∷ b'3' ∷ b'4' ∷ b' ' ∷ b'3' ∷ b'3' ∷ b'6' ∷ b'0' ∷ b'0' ∷ b' ' ∷ b'b' ∷ b'i'
    ∷ b't' ∷ b'/' ∷ b's' ∷ b',' ∷ b' ' ∷ b'V' ∷ b'.' ∷ b'9' ∷ b'0' ∷ b' ' ∷ b'5' ∷ b'6' ∷ b'0'
    ∷ b'0' ∷ b'0' ∷ b' ' ∷ b'b' ∷ b'i' ∷ b't' ∷ b'/' ∷ b's' ∷ b',' ∷ b' ' ∷ b'V' ∷ b'.' ∷ b'4'
    ∷ b'2' ∷ b' ' ∷ b'L' ∷ b'A' ∷ b'P' ∷ b'M' ∷ b',' ∷ b' ' ∷ b'V' ∷ b'.' ∷ b'4' ∷ b'2' ∷ b'b'
    ∷ b'i' ∷ b's' ∷ []

unfoldable pub identity : List ℕ → ℕ → Option (List ℕ)
identity version n =
    if n == 0
    then some product
    else if n == 3
    then some (product ++ b' ' ∷ version)
    else if n == 4
    then some features
    else none

unfoldable pub answer : List ℕ → Query → List ℕ
answer version manufacturer = b'+' ∷ b'G' ∷ b'M' ∷ b'I' ∷ b':' ∷ b' ' ∷ product
answer version model =
    b'+' ∷ b'G' ∷ b'M' ∷ b'M' ∷ b':' ∷ b' ' ∷ product ++ b' ' ∷ b'V' ∷ b'.' ∷ b'9' ∷ b'0' ∷ []
answer version revision = b'+' ∷ b'G' ∷ b'M' ∷ b'R' ∷ b':' ∷ b' ' ∷ version
answer version capabilities =
    b'+' ∷ b'G' ∷ b'C' ∷ b'A' ∷ b'P' ∷ b':' ∷ b' ' ∷ b'+' ∷ b'F' ∷ b'C' ∷ b'L' ∷ b'A' ∷ b'S' ∷ b'S'
    ∷ b',' ∷ b'+' ∷ b'M' ∷ b'S' ∷ b',' ∷ b'+' ∷ b'E' ∷ b'S' ∷ b',' ∷ b'+' ∷ b'D' ∷ b'S' ∷ []
answer version class = b'0' ∷ []
answer version classes = b'0' ∷ []
answer version country = b'+' ∷ b'G' ∷ b'C' ∷ b'I' ∷ b':' ∷ b' ' ∷ b'B' ∷ b'5' ∷ []
answer version countries = b'+' ∷ b'G' ∷ b'C' ∷ b'I' ∷ b':' ∷ b' ' ∷ b'(' ∷ b'B' ∷ b'5' ∷ b')' ∷ []

abbrev pub comma_between : List (List ℕ) → List ℕ
comma_between [] = []
comma_between (text ∷ []) = text
comma_between (text ∷ text' ∷ texts) = text ++ b',' ∷ comma_between (text' ∷ texts)

unfoldable pub information : List ℕ → Settings → Command → Option (List ℕ)
unfolding identity answer
information version s (identify n) = identity version n
information version s (asks query) = some (answer version query)
information version s (read_register r) = some (three_digits (register s r))
information version s read_carrier = some (
    b'+' ∷ b'M' ∷ b'S' ∷ b':' ∷ b' ' ∷ name s.modulation.carrier
    ++ b',' ∷ flag s.modulation.automode)
information version s list_carriers = some (
    b'+' ∷ b'M' ∷ b'S' ∷ b':' ∷ b' ' ∷ b'(' ∷ comma_between (map name carriers)
    ++ b')' ∷ b',' ∷ b'(' ∷ b'0' ∷ b',' ∷ b'1' ∷ b')' ∷ [])
information version s read_error_control = some (
    b'+'
    ∷ b'E'
    ∷ b'S'
    ∷ b':'
    ∷ b' '
    ∷ comma_between (
        decimal s.error_control.orig_rqst
        ∷ decimal s.error_control.orig_fbk
        ∷ decimal s.error_control.ans_fbk
        ∷ []))
information version s list_error_control = some (
    b'+' ∷ b'E' ∷ b'S' ∷ b':' ∷ b' ' ∷ b'(' ∷ b'0' ∷ b'-' ∷ b'3' ∷ b')' ∷ b',' ∷ b'(' ∷ b'0' ∷ b'-'
    ∷ b'3' ∷ b')' ∷ b',' ∷ b'(' ∷ b'0' ∷ b'-' ∷ b'5' ∷ b')' ∷ [])
information version s read_error_report =
    some (b'+' ∷ b'E' ∷ b'R' ∷ b':' ∷ b' ' ∷ flag s.error_control.report)
information version s list_error_report =
    some (b'+' ∷ b'E' ∷ b'R' ∷ b':' ∷ b' ' ∷ b'(' ∷ b'0' ∷ b',' ∷ b'1' ∷ b')' ∷ [])
information version s read_compression = some (
    b'+'
    ∷ b'D'
    ∷ b'S'
    ∷ b':'
    ∷ b' '
    ∷ comma_between (
        decimal s.compression.direction
        ∷ flag s.compression.required
        ∷ decimal s.compression.max_dict
        ∷ decimal s.compression.max_string
        ∷ []))
information version s list_compression = some (
    b'+' ∷ b'D' ∷ b'S' ∷ b':' ∷ b' ' ∷ b'(' ∷ b'0' ∷ b'-' ∷ b'3' ∷ b')' ∷ b',' ∷ b'(' ∷ b'0' ∷ b','
    ∷ b'1' ∷ b')' ∷ b',' ∷ b'(' ∷ b'5' ∷ b'1' ∷ b'2' ∷ b'-' ∷ b'6' ∷ b'5' ∷ b'5' ∷ b'3' ∷ b'5'
    ∷ b')' ∷ b',' ∷ b'(' ∷ b'6' ∷ b'-' ∷ b'2' ∷ b'5' ∷ b'0' ∷ b')' ∷ [])
information version s read_compression_report =
    some (b'+' ∷ b'D' ∷ b'R' ∷ b':' ∷ b' ' ∷ flag s.compression.report)
information version s list_compression_report =
    some (b'+' ∷ b'D' ∷ b'R' ∷ b':' ∷ b' ' ∷ b'(' ∷ b'0' ∷ b',' ∷ b'1' ∷ b')' ∷ [])
information version s _ = none
