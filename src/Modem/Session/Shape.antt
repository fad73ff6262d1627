-- ===== src/Modem/Session/Shape.antt =====
-- About how the parts of the modem.rs state agree.
pub mod Basic
pub mod Calls
pub mod Computer
pub mod Signals
use softmodem_rs.Prelude.{ℕ, ◌≡◌, refl, Bool, true, false, not, ◌&&◌, ◌||◌, Option, none, some}
use softmodem_rs.Terminal.Settings.Ranges.{IsSettings}
use softmodem_rs.Modem.Session.{Modem, Mode, command, handshake, data_mode, online_command}
use softmodem_rs.Modem.Session.Calls.{is_some}

abbrev pub is_command : Mode → Bool
is_command command = true
is_command _ = false

-- A line goes with every mode but the command mode. Nothing rings on a line or off the hook, and only a
-- line is connected.
abbrev pub agree : Bool → Bool → Bool → Bool → Bool → Bool
agree line is_command ringing off_hook connection =
    (line || is_command)
    && not (line && is_command)
    && not (ringing && (line || off_hook))
    && (line || not connection)

abbrev pub agrees : {L S : Type 0} → Modem L S → Bool
agrees m =
    agree (is_some m.line) (is_command m.mode) (is_some m.ringing) m.off_hook (is_some m.connection)

-- Both sets of settings are in their ranges too.
pub record IsModem {L S : Type 0} (m : Modem L S) : Type 0 where
  pub agrees : agrees m ≡ true
  pub settings : IsSettings m.settings
  pub profile : IsSettings m.profile
