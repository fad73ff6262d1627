-- ===== src/Terminal/Command.antt =====
-- softmodem-terminal/src/command.rs: the commands of an AT line, and with them the modulations of
-- settings.rs that they name. A text is the list of its bytes.
pub mod Parser
pub mod Extended
pub mod Parse
pub mod Ranges
pub mod Loop
pub mod Register
use softmodem_rs.Prelude.{ℕ, Bool, Option, List, [], ◌∷◌}

pub data Carrier : Type 0 where
  v21 : Carrier
  v22 : Carrier
  v22bis : Carrier
  v34 : Carrier
  v90 : Carrier

-- `Carrier::ALL`
abbrev pub carriers : List Carrier
carriers = v21 ∷ v22 ∷ v22bis ∷ v34 ∷ v90 ∷ []

abbrev pub name : Carrier → List ℕ
name v21 = b'V' ∷ b'2' ∷ b'1' ∷ []
name v22 = b'V' ∷ b'2' ∷ b'2' ∷ []
name v22bis = b'V' ∷ b'2' ∷ b'2' ∷ b'B' ∷ []
name v34 = b'V' ∷ b'3' ∷ b'4' ∷ []
name v90 = b'V' ∷ b'9' ∷ b'0' ∷ []

pub record Dial : Type 0 where
  pub number : List ℕ
  pub pauses : ℕ
  pub after_answer : List ℕ
  pub reverse : Bool
  pub stay_in_command_mode : Bool
  pub redial : Bool

pub data Query : Type 0 where
  manufacturer : Query
  model : Query
  revision : Query
  capabilities : Query
  class : Query
  classes : Query
  country : Query
  countries : Query

pub data Command : Type 0 where
  answer : Command
  dial : Dial → Command
  echo : Bool → Command
  off_hook : Bool → Command
  identify : ℕ → Command
  loudness : ℕ → Command
  monitor : ℕ → Command
  online : Bool → Command
  quiet : Bool → Command
  verbose : Bool → Command
  result_set : ℕ → Command
  reset : Command
  factory_reset : Command
  carrier_detect : Bool → Command
  set_register : ℕ → ℕ → Command
  read_register : ℕ → Command
  set_carrier : Carrier → Bool → Option ℕ → Command
  read_carrier : Command
  list_carriers : Command
  set_error_control : Option ℕ → Option ℕ → Option ℕ → Command
  read_error_control : Command
  list_error_control : Command
  report_error_control : Bool → Command
  read_error_report : Command
  list_error_report : Command
  set_compression : Option ℕ → Option Bool → Option ℕ → Option ℕ → Command
  read_compression : Command
  list_compression : Command
  report_compression : Bool → Command
  read_compression_report : Command
  list_compression_report : Command
  asks : Query → Command
  ignored : Command
