-- ===== src/Modem/Session/Computer.antt =====
-- softmodem/src/modem.rs: what the computer sends, as commands or as data.
use softmodem_rs.Prelude.{
  ℕ, ◌+◌, Bool, true, false, if◌then◌else◌, Option, none, some, List, [], ◌∷◌, length,
}
use softmodem_rs.Prelude.Result.{Result}
use softmodem_rs.Terminal.Line.{LineEditor, Keys, Input, line, repeat}
use softmodem_rs.Terminal.Line
use softmodem_rs.Terminal.Escape.{EscapeDetector}
use softmodem_rs.Terminal.Escape
use softmodem_rs.Terminal.Command.{Command, reset, factory_reset, off_hook}
use softmodem_rs.Terminal.Command.Parser.{ParseError}
use softmodem_rs.Terminal.Command.Parse.{parse}
use softmodem_rs.Terminal.Settings.{
  Settings, default, apply, terminator, backspace, escape, escape_guard,
}
use softmodem_rs.Terminal.Settings.Report.{no_carrier, error, ok}
use softmodem_rs.Terminal.Settings.Report
use softmodem_rs.Modem.Information.{information}
use softmodem_rs.Modem.Session.{
  Modem, LineOps, World, Mode, command, handshake, online_command, data_mode, write, report,
  sync_dcd, put_down, hang_up_with,
}
use softmodem_rs.Modem.Session.Calls.{answer, dial, online, reject_ringing}

abbrev pub keys_of : Settings → Keys
keys_of s = record { terminator = terminator s; backspace = backspace s; echo = s.echo }

abbrev pub takes_commands : Mode → Bool
takes_commands command = true
takes_commands online_command = true
takes_commands _ = false

module _ {L S : Type 0} where
  abbrev pub inform : Option (List ℕ) → Command → Modem L S → Modem L S
  inform (some text) c m = write (Report.line m.settings text) m
  inform none c m = record m { settings = (apply c m.settings).0 }

  abbrev pub other : List ℕ → Command → Modem L S → Modem L S
  other version c m = inform (information version m.settings c) c m

module _ {L C S : Type 0} where
  -- A command of the line, and whether the line goes on after it.
  unfoldable pub execute_one :
      List ℕ → LineOps L C S → World C S → Command → Modem L S → Modem L S × Bool
  unfolding answer dial online put_down default apply information Report.line
  execute_one version ops w Command.answer m = (answer ops w m, false)
  execute_one version ops w (Command.dial d) m = (dial ops w d m, false)
  execute_one version ops w (Command.online retrain) m = (online ops w retrain m, false)
  execute_one version ops w reset m = (record (put_down ops w m) { settings = m.profile }, true)
  execute_one version ops w factory_reset m =
      (record (put_down ops w m) { settings = default }, true)
  execute_one version ops w (off_hook true) m =
      (reject_ringing m.ringing (record m { off_hook = true }), true)
  execute_one version ops w (off_hook false) m =
      (record (put_down ops w m) { off_hook = false }, true)
  execute_one version ops w c m = (other version c m, true)

  unfoldable pub execute_all :
      List ℕ → LineOps L C S → World C S → List Command → Modem L S → Modem L S
  unfolding execute_one report sync_dcd
  execute_all version ops w [] m = sync_dcd ops (report ok m)
  execute_all version ops w (c ∷ commands) m =
      let (m', goes_on) = execute_one version ops w c m in
      let rest = execute_all version ops w commands m' in if goes_on then rest else m'

  abbrev pub execute_parsed :
      List ℕ → LineOps L C S → World C S → Result ParseError (List Command) → Modem L S → Modem L S
  execute_parsed version ops w (Result.err e) m = report error m
  execute_parsed version ops w (Result.ok commands) m = execute_all version ops w commands m

  unfoldable pub execute : List ℕ → LineOps L C S → World C S → List ℕ → Modem L S → Modem L S
  unfolding execute_all parse
  execute version ops w text m = execute_parsed version ops w (parse text) m

  abbrev pub send_line : LineOps L C S → World C S → List ℕ → Option L → Option L
  send_line ops w bytes none = none
  send_line ops w bytes (some l) = some (ops.send l bytes w.now)

  abbrev pub send_data : LineOps L C S → World C S → EscapeDetector × List ℕ → Modem L S → Modem L S
  send_data ops w (d, bytes) m = record m {
    mode = data_mode d;
    sent = m.sent + length bytes;
    line = send_line ops w bytes m.line;
  }

  -- The text of an input is executed either way.
  abbrev pub execute_input :
      List ℕ → LineOps L C S → World C S → Option Input → Modem L S → Modem L S × Bool
  execute_input version ops w none m = (m, true)
  execute_input version ops w (some (line text)) m =
      let m' = execute version ops w text m in (m', takes_commands m'.mode)
  execute_input version ops w (some (repeat text)) m =
      let m' = execute version ops w text m in (m', takes_commands m'.mode)

  abbrev pub type_byte :
      List ℕ
      → LineOps L C S
      → World C S
      → (LineEditor × Option Input) × List ℕ
      → Modem L S
      → Modem L S × Bool
  type_byte version ops w ((editor, input), echo) m =
      execute_input version ops w input (write echo (record m { editor = editor }))

  -- A byte from the computer, and whether the bytes after it are looked at.
  unfoldable pub byte_sent :
      List ℕ → LineOps L C S → World C S → Mode → ℕ → Modem L S → Modem L S × Bool
  unfolding execute Line.push Escape.push hang_up_with
  byte_sent version ops w (data_mode d) byte m =
      let s = m.settings in
      (send_data ops w (Escape.push d byte (escape s) (escape_guard s) w.now []) m, true)
  byte_sent version ops w (handshake deadline) byte m = (hang_up_with ops no_carrier m, false)
  byte_sent version ops w command byte m =
      type_byte version ops w (Line.push (keys_of m.settings) m.editor byte []) m
  byte_sent version ops w online_command byte m =
      type_byte version ops w (Line.push (keys_of m.settings) m.editor byte []) m

  unfoldable pub computer_sent :
      List ℕ → LineOps L C S → List (ℕ × World C S) → Modem L S → Modem L S
  unfolding byte_sent
  computer_sent version ops [] m = m
  computer_sent version ops ((byte, w) ∷ bytes) m =
      let (m', goes_on) = byte_sent version ops w m.mode byte m in
      let rest = computer_sent version ops bytes m' in if goes_on then rest else m'
