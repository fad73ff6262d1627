-- ===== src/Modem.antt =====
-- softmodem/src/modem.rs and what it takes of softmodem-dsp/src/pump.rs and of journal.rs and line.rs beside it:
-- what a line starts with under the settings.
pub mod Information
pub mod Profile
pub mod Session
pub mod Line
use softmodem_rs.Prelude.{ℕ, Bool, true, not, Option, none, some, ◌==◌, if◌then◌else◌}
use softmodem_rs.Lapm.State.{Role}
use softmodem_rs.V42bis.Parameters.{Parameters}
use softmodem_rs.V42bis.Negotiation.{Directions}
use softmodem_rs.Link.State.{Setup, CompressionSetup}
use softmodem_rs.Terminal.Command.{Carrier}
use softmodem_rs.Terminal.Command
use softmodem_rs.Terminal.Settings.{
  Settings, ErrorControl, Compression, originator_tries, originator_detects, originator_requires,
  answerer_tries, answerer_requires, transmit, receive,
}

-- `Modulation` of pump.rs.
pub data Modulation : Type 0 where
  v21 : Modulation
  v22 : Modulation
  v22bis : Modulation
  v34 : Modulation
  v90 : Modulation

pub record Offer : Type 0 where
  pub top : Modulation
  pub automode : Bool
  pub max_transmit : Option ℕ

-- `Setups` of line.rs: how a call tries V.42 in each role.
pub record Setups : Type 0 where
  pub originate : Setup
  pub answer : Setup

-- `Header` of journal.rs: what a call's line starts with.
pub record Header : Type 0 where
  pub offer : Offer
  pub setups : Setups
  pub role : Option Role

abbrev pub top_of : Carrier → Modulation
top_of Command.v21 = v21
top_of Command.v22 = v22
top_of Command.v22bis = v22bis
top_of Command.v34 = v34
top_of Command.v90 = v90

unfoldable pub compression_of : Compression → Option CompressionSetup
compression_of asked =
    if asked.direction == 0
    then none
    else some (record {
      offer = record {
        transmit = transmit asked;
        receive = receive asked;
        parameters = record { codewords = asked.max_dict; max_string = asked.max_string };
      };
      required = asked.required;
    })

unfoldable pub setups_of : ErrorControl → Compression → Setups
unfolding compression_of
setups_of control asked = record {
  originate = record {
    lapm = originator_tries control;
    detection = originator_detects control;
    required = originator_requires control;
    compression = compression_of asked;
  };
  answer = record {
    lapm = answerer_tries control;
    detection = true;
    required = answerer_requires control;
    compression = compression_of asked;
  };
}

unfoldable pub header : Settings → Option Role → Header
unfolding setups_of
header s role = record {
  offer = record {
    top = top_of s.modulation.carrier;
    automode = s.modulation.automode;
    max_transmit = s.modulation.max_transmit;
  };
  setups = setups_of s.error_control s.compression;
  role = role;
}
