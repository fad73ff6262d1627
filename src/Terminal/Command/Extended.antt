-- ===== src/Terminal/Command/Extended.antt =====
-- softmodem-terminal/src/command.rs: the extended commands, after their names.
use softmodem_rs.Prelude.{
  ℕ, zero, suc, Bool, true, false, ◌&&◌, Option, none, some, List, [], ◌∷◌, ◌==◌, ltb, leb,
  if◌then◌else◌, length, replicate, get_or,
}
use softmodem_rs.Prelude.Result.{ok}
use softmodem_rs.Terminal.Command.{
  Carrier, carriers, name, Query, Command, set_carrier, read_carrier, list_carriers,
  set_error_control, read_error_control, list_error_control, report_error_control,
  read_error_report, list_error_report, set_compression, read_compression, list_compression,
  report_compression, read_compression_report, list_compression_report, asks, ignored,
}
use softmodem_rs.Terminal.Command.Parser.{
  Parser, ◌>>=◌, give, fail, next, peek, skip, is_byte, is_alphanumeric, take_while, number, u8_max,
  u16_max, u32_max, i32_max, value,
}

unfoldable pub after_semicolon : List ℕ → List ℕ
after_semicolon [] = []
after_semicolon (b ∷ text) = let rest = after_semicolon text in if b == b';' then text else rest

-- `skip_extended`, and the command that it leaves out.
unfoldable pub skip_extended : Parser Command
unfolding after_semicolon
skip_extended text = ok (ignored, after_semicolon text)

abbrev pub ends : Option ℕ → Bool
ends none = true
ends (some b) = b == b';'

unfoldable pub end_extended : Command → Parser Command
end_extended command = do byte ← next; if ends byte then give command else fail

-- A range, both ends included.
abbrev pub Range : Type 0
Range = ℕ × ℕ

abbrev pub contains : Range → ℕ → Bool
contains (low, high) n = leb low n && leb n high

abbrev pub within : Range → Option ℕ → Parser (Option ℕ)
within range none = give none
within range (some n) = if contains range n then give (some n) else fail

unfoldable pub subparameter : Range → Parser (Option ℕ)
subparameter range = do n ← number u16_max; within range n

-- The values after the first; without a comma, what is left has none.
unfoldable pub more_subparameters : List Range → Parser (List (Option ℕ))
more_subparameters [] = give []
more_subparameters (range ∷ ranges) = do
  comma ← peek
  if is_byte comma b','
      then (do
        skipped ← skip
        n ← subparameter range
        rest ← more_subparameters ranges
        give (n ∷ rest))
      else give (none ∷ replicate (length ranges) none)

unfoldable pub subparameters : Range → List Range → Parser (List (Option ℕ))
subparameters range ranges = do
  n ← subparameter range
  rest ← more_subparameters ranges
  give (n ∷ rest)

-- `values[i]`
abbrev pub nth : List (Option ℕ) → ℕ → Option ℕ
nth values i = get_or values i none

-- `small`
abbrev pub small : Option ℕ → Option ℕ
small none = none
small (some n) = if leb n u8_max then some n else none

-- A `?`, a `=?`, or a `=` with what `set` reads.
unfoldable pub parameter : Command → Command → Parser Command → Parser Command
parameter read list set = do
  sign ← next
  question ← peek
  if is_byte sign b'?'
      then end_extended read
      else if is_byte sign b'=' && is_byte question b'?'
      then (skip >>= λ _. end_extended list)
      else if is_byte sign b'='
      then (set >>= end_extended)
      else fail

unfoldable pub set_errors : Parser Command
set_errors = do
  values ← subparameters (0, 3) ((0, 3) ∷ (0, 5) ∷ [])
  give (set_error_control (small (nth values 0)) (small (nth values 1)) (small (nth values 2)))

unfoldable pub error_control : Parser Command
error_control = parameter read_error_control list_error_control set_errors

abbrev pub is_one : Option ℕ → Option Bool
is_one none = none
is_one (some n) = some (n == 1)

abbrev pub compression_ranges : List Range
compression_ranges = (0, 1) ∷ (512, u16_max) ∷ (6, 250) ∷ []

unfoldable pub set_compressing : Parser Command
set_compressing = do
  values ← subparameters (0, 3) compression_ranges
  give (
      set_compression (small (nth values 0)) (is_one (nth values 1)) (nth values 2)
        (small (nth values 3)))

unfoldable pub compression : Parser Command
compression = parameter read_compression list_compression set_compressing

unfoldable pub flag_value : Parser Bool
flag_value = do n ← value 1; give (n == 1)

unfoldable pub compression_report : Parser Command
compression_report =
    parameter read_compression_report list_compression_report
      (do on ← flag_value; give (report_compression on))

unfoldable pub error_report : Parser Command
error_report =
    parameter read_error_report list_error_report
      (do on ← flag_value; give (report_error_control on))

abbrev pub asked : List ℕ → Bool
asked (x ∷ y ∷ rest) = x == b'=' && y == b'?'
asked (x ∷ []) = false
asked [] = false

-- The two bytes at the position.
unfoldable pub peek_asked : Parser Bool
peek_asked text = ok (asked text, text)

unfoldable pub identity : Query → Parser Command
identity query = do
  listing ← peek_asked
  if listing
      then (do first ← skip; second ← skip; end_extended ignored)
      else end_extended (asks query)

-- `class` of the source, which is a keyword's name for the query too.
unfoldable pub fax_class : Parser Command
fax_class = parameter (asks Query.class) (asks Query.classes) (do n ← value 0; give ignored)

unfoldable pub country : Parser Command
country = parameter (asks Query.country) (asks Query.countries) (do
  first ← next
  second ← next
  if is_byte first b'B' && is_byte second b'5' then give ignored else fail)

-- Equality of two texts.
abbrev pub same_text : List ℕ → List ℕ → Bool
same_text [] [] = true
same_text [] (y ∷ ys) = false
same_text (x ∷ xs) [] = false
same_text (x ∷ xs) (y ∷ ys) = x == y && same_text xs ys

unfoldable pub find_carrier : List Carrier → List ℕ → Parser Carrier
find_carrier [] text = fail
find_carrier (c ∷ cs) text = if same_text (name c) text then give c else find_carrier cs text

abbrev pub automode_of : Option ℕ → Parser Bool
automode_of none = give true
automode_of (some zero) = give false
automode_of (some (suc zero)) = give true
automode_of (some (suc (suc n))) = fail

unfoldable pub automode : Parser Bool
automode = do
  comma ← peek
  if is_byte comma b',' then (do skipped ← skip; n ← number i32_max; automode_of n) else give true

-- The loop over the rates: every turn takes a comma.
unfoldable pub rates_from : ℕ → Parser (List (Option ℕ))
rates_from zero = give []
rates_from (suc fuel) = do
  comma ← peek
  if is_byte comma b','
      then (do skipped ← skip; rate ← number u32_max; more ← rates_from fuel; give (rate ∷ more))
      else give []

unfoldable pub rates : Parser (List (Option ℕ))
unfolding rates_from
rates text = rates_from (length text) text

abbrev pub positive : Option ℕ → Option ℕ
positive none = none
positive (some n) = if ltb 0 n then some n else none

unfoldable pub set_modulation : Parser Command
set_modulation = do
  text ← take_while is_alphanumeric
  carrier ← find_carrier carriers text
  auto ← automode
  given ← rates
  give (set_carrier carrier auto (positive (nth given 1)))

unfoldable pub modulation : Parser Command
modulation = parameter read_carrier list_carriers set_modulation
