-- ===== src/Modem/Session/Signals.antt =====
-- softmodem/src/modem.rs: the ticks of a call, and what its line hears.
use softmodem_rs.Prelude.{
  ℕ, ◌+◌, ◌-◌, Bool, true, false, not, ◌&&◌, if◌then◌else◌, Option, none, some, List, [], ◌∷◌, leb,
  length,
}
use softmodem_rs.Terminal.Escape.{EscapeDetector, Timeout, escaped, release}
use softmodem_rs.Terminal.Escape
use softmodem_rs.V42bis.Negotiation.{Directions}
use softmodem_rs.Terminal.Settings.{escape_guard, carrier_loss_hang_up}
use softmodem_rs.Terminal.Settings.Report.{no_carrier, ok, connect_code}
use softmodem_rs.Terminal.Settings.Report
use softmodem_rs.Modem.Session.{
  Modem, LineOps, World, Mode, command, handshake, online_command, data_mode, Received, Connection,
  act, sounded, write, report, sync_dcd, hang_up_with, is_connected,
}
use softmodem_rs.Modem.Session.Calls.{is_some, rate_or_0}
use softmodem_rs.Modem.Session.Computer.{send_line}

-- What becomes of a frame: no room for one more, taken, full after all, or the far end closed.
pub data Sending : Type 0 where
  no_room : Sending
  taken : Sending
  full : Sending
  closed : Sending

-- `Received::protocol`
abbrev pub protocol : Received → List ℕ
protocol r = if r.reliable then b'L' ∷ b'A' ∷ b'P' ∷ b'M' ∷ [] else b'N' ∷ b'O' ∷ b'N' ∷ b'E' ∷ []

-- `Received::compression_name`
abbrev pub name_of : Option Directions → List ℕ
name_of none = b'N' ∷ b'O' ∷ b'N' ∷ b'E' ∷ []
name_of (some d) =
    if d.transmit && d.receive
    then b'V' ∷ b'4' ∷ b'2' ∷ b'B' ∷ []
    else if d.receive
    then b'V' ∷ b'4' ∷ b'2' ∷ b'B' ∷ b' ' ∷ b'R' ∷ b'D' ∷ []
    else if d.transmit
    then b'V' ∷ b'4' ∷ b'2' ∷ b'B' ∷ b' ' ∷ b'T' ∷ b'D' ∷ []
    else b'N' ∷ b'O' ∷ b'N' ∷ b'E' ∷ []

-- What `+ER` and `+DR` report before the connection.
abbrev pub error_text : Received → List ℕ
error_text r = b'+' ∷ b'E' ∷ b'R' ∷ b':' ∷ b' ' ∷ protocol r

abbrev pub compression_text : Received → List ℕ
compression_text r = b'+' ∷ b'D' ∷ b'R' ∷ b':' ∷ b' ' ∷ name_of r.compression

abbrev pub is_data : Mode → Bool
is_data (data_mode d) = true
is_data _ = false

abbrev pub is_handshake : Mode → Bool
is_handshake (handshake deadline) = true
is_handshake _ = false

abbrev pub rate_or : Option ℕ → ℕ → ℕ
rate_or none rate = rate
rate_or (some rate) other = rate

abbrev pub lost_since : Option ℕ → ℕ → ℕ
lost_since none now = now
lost_since (some at) now = at

module _ {L C S : Type 0} where
  -- `line_sent` under `received.connected`, from the line.
  abbrev pub connection_of : LineOps L C S → ℕ → Received → ℕ → L → Connection
  connection_of ops now r rate l = record {
    since = now;
    receive_rate = rate;
    transmit_rate = rate_or (ops.transmit_rate l) rate;
    error_control = r.reliable;
    compression = is_some r.compression;
    retransmissions = 0;
  }

  abbrev pub connection_on :
      LineOps L C S → ℕ → Received → ℕ → Option L → Option Connection → Option Connection
  connection_on ops now r rate none c = c
  connection_on ops now r rate (some l) c = some (connection_of ops now r rate l)

module _ {L S : Type 0} where
  -- A line of text, if it is asked for and results are not suppressed.
  abbrev pub told : Bool → List ℕ → Modem L S → Modem L S
  told asked text m =
      if asked && not m.settings.quiet then write (Report.line m.settings text) m else m

module _ {L C S : Type 0} where
  unfoldable pub enter_data : LineOps L C S → ℕ → Received → ℕ → Modem L S → Modem L S
  unfolding Report.line report sync_dcd Escape.new
  enter_data ops now r rate m =
      let m' : Modem L S = record m {
        connection = connection_on ops now r rate m.line m.connection;
        mode = data_mode (Escape.new now);
        carrier_lost_at = none;
      } in
      sync_dcd ops (
        report (connect_code rate) (
          told m.settings.compression.report (compression_text r)
            (told m.settings.error_control.report (error_text r) m')))

module _ {L S : Type 0} where
  -- What is heard in data mode goes to the computer.
  abbrev pub deliver : List ℕ → Modem L S → Modem L S
  deliver bytes m =
      if is_data m.mode then write bytes (record m { received = m.received + length bytes }) else m

module _ {L C S : Type 0} where
  abbrev pub hear : LineOps L C S → World C S → Modem L S → L × Received → Modem L S
  hear ops w m (l, r) =
      let m' : Modem L S = record m { line = some l } in
      if ops.released l
      then hang_up_with ops no_carrier m'
      else deliver r.bytes (
          if r.connected && is_handshake m.mode
          then enter_data ops w.now r (rate_or_0 (ops.bit_rate l)) m'
          else m')

  abbrev pub hear_on : LineOps L C S → World C S → S → Option L → Modem L S → Modem L S
  hear_on ops w samples none m = m
  hear_on ops w samples (some l) m = hear ops w m (ops.receive l samples w.now)

  unfoldable pub line_sent : LineOps L C S → World C S → Option S → Modem L S → Modem L S
  unfolding hang_up_with enter_data
  line_sent ops w none m = hang_up_with ops no_carrier m
  line_sent ops w (some samples) m = hear_on ops w samples m.line m

  -- What the escape detector's timeout does in data mode.
  abbrev pub timed_out :
      LineOps L C S → World C S → EscapeDetector × Option Timeout → Modem L S → Modem L S
  timed_out ops w (d, none) m = record m { mode = data_mode d }
  timed_out ops w (d, some escaped) m = report ok (record m { mode = online_command })
  timed_out ops w (d, some (release bytes)) m = record m {
    mode = data_mode d;
    line = send_line ops w bytes m.line;
  }

  -- The end of `tick`, from whether the line hears a carrier.
  abbrev pub watch_carrier : LineOps L C S → World C S → Bool → Bool → Modem L S → Modem L S
  watch_carrier ops w handshaken carrier m =
      let lost_at = lost_since m.carrier_lost_at w.now in
      let m' : Modem L S = record m { carrier_lost_at = some lost_at } in
      if not (is_connected m.mode && handshaken)
      then m
      else if carrier
      then record m { carrier_lost_at = none }
      else if leb (carrier_loss_hang_up m.settings) (w.now - lost_at)
      then hang_up_with ops no_carrier m'
      else m'

  abbrev pub watch : LineOps L C S → World C S → L → Mode → Modem L S → Modem L S
  watch ops w l command m = watch_carrier ops w (ops.has_handshake l) (ops.carrier l) m
  watch ops w l online_command m = watch_carrier ops w (ops.has_handshake l) (ops.carrier l) m
  watch ops w l (handshake deadline) m =
      if leb deadline w.now
      then hang_up_with ops no_carrier m
      else watch_carrier ops w (ops.has_handshake l) (ops.carrier l) m
  watch ops w l (data_mode d) m =
      watch_carrier ops w (ops.has_handshake l) (ops.carrier l)
        (timed_out ops w (Escape.poll d (escape_guard m.settings) w.now) m)

  abbrev pub keep_line : LineOps L C S → World C S → L → Modem L S → Modem L S
  keep_line ops w l m =
      if ops.cleared l
      then hang_up_with ops no_carrier (record m { line = some l })
      else watch ops w l m.mode (record m { line = some l })

  abbrev pub put_frame : LineOps L C S → World C S → Sending → L × S → Modem L S → Modem L S
  put_frame ops w closed (l, samples) m = hang_up_with ops no_carrier (record m { line = some l })
  put_frame ops w full (l, samples) m = keep_line ops w (ops.dropped l w.now) m
  put_frame ops w taken (l, samples) m = keep_line ops w l (act (sounded samples) m)
  put_frame ops w no_room (l, samples) m = keep_line ops w l m

  abbrev pub send_frame : LineOps L C S → World C S → Sending → L × S → Modem L S → Modem L S
  send_frame ops w sending (l, samples) m =
      if ops.released l
      then hang_up_with ops no_carrier (record m { line = some l })
      else put_frame ops w sending (l, samples) m

  abbrev pub tick_on : LineOps L C S → World C S → Sending → Option L → Modem L S → Modem L S
  tick_on ops w sending none m = m
  tick_on ops w no_room (some l) m = keep_line ops w l m
  tick_on ops w taken (some l) m = send_frame ops w taken (ops.transmit l w.now) m
  tick_on ops w full (some l) m = send_frame ops w full (ops.transmit l w.now) m
  tick_on ops w closed (some l) m = send_frame ops w closed (ops.transmit l w.now) m

  unfoldable pub tick : LineOps L C S → World C S → Sending → Modem L S → Modem L S
  unfolding hang_up_with report Escape.poll
  tick ops w sending m = tick_on ops w sending m.line m
