-- ===== src/Terminal/Settings.antt =====
-- softmodem-terminal/src/settings.rs: what the AT commands set. Durations are in milliseconds, and the
-- speaker's gain is in quarters of the full one.
pub mod Report
pub mod Ranges
use softmodem_rs.Prelude.{
  ℕ, zero, suc, ◌+◌, ◌*◌, ◌/◌, ◌%◌, Bool, true, false, not, ◌&&◌, ◌||◌, Option, none, some, List,
  [], ◌∷◌, ◌==◌, ltb, leb, if◌then◌else◌, get_or, set, replicate,
}
use softmodem_rs.Terminal.Command.{
  Carrier, v90, Command, echo, quiet, verbose, result_set, loudness, monitor, carrier_detect,
  set_carrier, set_error_control, report_error_control, set_compression, report_compression,
  set_register, ignored,
}
use softmodem_rs.Terminal.Command.Parser.{unwrap_or}

pub data Dcd : Type 0 where
  always_on : Dcd
  follows_carrier : Dcd

pub record Modulation : Type 0 where
  pub carrier : Carrier
  pub automode : Bool
  pub max_transmit : Option ℕ

pub record ErrorControl : Type 0 where
  pub orig_rqst : ℕ
  pub orig_fbk : ℕ
  pub ans_fbk : ℕ
  pub report : Bool

pub record Compression : Type 0 where
  pub direction : ℕ
  pub required : Bool
  pub max_dict : ℕ
  pub max_string : ℕ
  pub report : Bool

pub record Settings : Type 0 where
  pub echo : Bool
  pub quiet : Bool
  pub verbose : Bool
  pub result_set : ℕ
  pub loudness : ℕ
  pub monitor : ℕ
  pub dcd : Dcd
  pub modulation : Modulation
  pub error_control : ErrorControl
  pub compression : Compression
  pub registers : List ℕ

abbrev pub modulation_default : Modulation
modulation_default = record { carrier = v90; automode = true; max_transmit = none }

abbrev pub error_control_default : ErrorControl
error_control_default = record { orig_rqst = 3; orig_fbk = 0; ans_fbk = 2; report = false }

abbrev pub compression_default : Compression
compression_default = record {
  direction = 3;
  required = false;
  max_dict = 2048;
  max_string = 32;
  report = false;
}

-- The registers that start with a value, and it.
abbrev pub register_values : List (ℕ × ℕ)
register_values =
    (2, b'+')
    ∷ (3, 13)
    ∷ (4, 10)
    ∷ (5, 8)
    ∷ (6, 2)
    ∷ (7, 50)
    ∷ (8, 2)
    ∷ (9, 6)
    ∷ (10, 14)
    ∷ (11, 95)
    ∷ (12, 50)
    ∷ (25, 5)
    ∷ (26, 1)
    ∷ (38, 20)
    ∷ []

abbrev pub set_all : List (ℕ × ℕ) → List ℕ → List ℕ
set_all [] registers = registers
set_all ((r, v) ∷ values) registers = set_all values (set registers r v)

unfoldable pub default : Settings
default = record {
  echo = true;
  quiet = false;
  verbose = true;
  result_set = 4;
  loudness = 2;
  monitor = 1;
  dcd = always_on;
  modulation = modulation_default;
  error_control = error_control_default;
  compression = compression_default;
  registers = set_all register_values (replicate 256 0);
}

abbrev pub choose : {A : Type 0} → Option A → A → A
choose none a = a
choose (some a) a' = a

abbrev pub asked_errors : Option ℕ → Option ℕ → Option ℕ → ErrorControl → ErrorControl
asked_errors rqst fbk ans current = record current {
  orig_rqst = choose rqst current.orig_rqst;
  orig_fbk = choose fbk current.orig_fbk;
  ans_fbk = choose ans current.ans_fbk;
}

abbrev pub asked_compression :
    Option ℕ → Option Bool → Option ℕ → Option ℕ → Compression → Compression
asked_compression direction required dict string current = record current {
  direction = choose direction current.direction;
  required = choose required current.required;
  max_dict = choose dict current.max_dict;
  max_string = choose string current.max_string;
}

-- The settings, and whether the command only changes one.
unfoldable pub apply : Command → Settings → Settings × Bool
apply (echo on) s = (record s { echo = on }, true)
apply (quiet on) s = (record s { quiet = on }, true)
apply (verbose on) s = (record s { verbose = on }, true)
apply (result_set level) s = (record s { result_set = level }, true)
apply (loudness level) s = (record s { loudness = level }, true)
apply (monitor mode) s = (record s { monitor = mode }, true)
apply (carrier_detect follows) s =
    (record s { dcd = if follows then follows_carrier else always_on }, true)
apply (set_carrier c auto rate) s =
    (record s { modulation = record { carrier = c; automode = auto; max_transmit = rate } }, true)
apply (set_error_control rqst fbk ans) s =
    (record s { error_control = asked_errors rqst fbk ans s.error_control }, true)
apply (report_error_control on) s =
    (record s { error_control = record s.error_control { report = on } }, true)
apply (set_compression direction required dict string) s = (
  record s { compression = asked_compression direction required dict string s.compression },
  true,
)
apply (report_compression on) s =
    (record s { compression = record s.compression { report = on } }, true)
apply (set_register r v) s = (record s { registers = set s.registers r v }, true)
apply ignored s = (s, true)
apply _ s = (s, false)

abbrev pub register : Settings → ℕ → ℕ
register s r = get_or s.registers r 0

abbrev pub auto_answer_rings : Settings → ℕ
auto_answer_rings s = register s 0

abbrev pub escape : Settings → Option ℕ
escape s = if leb (register s 2) 127 then some (register s 2) else none

abbrev pub terminator : Settings → ℕ
terminator s = register s 3

abbrev pub backspace : Settings → ℕ
backspace s = register s 5

abbrev pub blind_dial_wait : Settings → ℕ
blind_dial_wait s = if s.result_set == 2 || s.result_set == 4 then 0 else register s 6 * 1000

abbrev pub carrier_wait : Settings → ℕ
carrier_wait s = register s 7 * 1000

abbrev pub comma_pause : Settings → ℕ
comma_pause s = register s 8 * 1000

abbrev pub carrier_loss_hang_up : Settings → ℕ
carrier_loss_hang_up s = register s 10 * 100

abbrev pub escape_guard : Settings → ℕ
escape_guard s = register s 12 * 20

abbrev pub speaker_on : ℕ → Bool → Bool
speaker_on mode connected = if mode == 0 then false else if mode == 1 then not connected else true

unfoldable pub speaker_gain : Settings → Bool → ℕ
speaker_gain s connected =
    if not (speaker_on s.monitor connected)
    then 0
    else if leb s.loudness 1
    then 1
    else if s.loudness == 2
    then 2
    else 4

abbrev pub originator_tries : ErrorControl → Bool
originator_tries c = leb 2 c.orig_rqst

abbrev pub originator_detects : ErrorControl → Bool
originator_detects c = c.orig_rqst == 3

abbrev pub originator_requires : ErrorControl → Bool
originator_requires c = leb 2 c.orig_fbk

abbrev pub answerer_tries : ErrorControl → Bool
answerer_tries c = leb 2 c.ans_fbk

abbrev pub answerer_requires : ErrorControl → Bool
answerer_requires c = leb 4 c.ans_fbk

-- `direction & 1 != 0`
abbrev pub transmit : Compression → Bool
transmit c = c.direction % 2 == 1

-- `direction & 2 != 0`
abbrev pub receive : Compression → Bool
receive c = c.direction / 2 % 2 == 1
