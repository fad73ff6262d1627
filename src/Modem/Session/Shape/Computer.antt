-- ===== src/Modem/Session/Shape/Computer.antt =====
-- About the parts of the modem.rs state, under what the computer sends.
use softmodem_rs.Prelude.{
  ℕ, ◌≡◌, refl, sym, subst, true, false, if_cases, Option, none, some, List, [], ◌∷◌, arith, All,
}
use softmodem_rs.Prelude.Result.{Result}
use softmodem_rs.Terminal.Line.{LineEditor, Input, line, repeat}
use softmodem_rs.Terminal.Line
use softmodem_rs.Terminal.Escape.{EscapeDetector}
use softmodem_rs.Terminal.Command.{Command}
use softmodem_rs.Terminal.Command.Parser.{ParseError}
use softmodem_rs.Terminal.Command.Parse.{parse}
use softmodem_rs.Terminal.Command.Ranges.{IsCommand}
use softmodem_rs.Terminal.Command.Ranges.Line.{parse-IsCommand}
use softmodem_rs.Terminal.Settings.{Settings, default}
use softmodem_rs.Terminal.Settings.Ranges.{IsSettings, default-IsSettings, apply-IsSettings}
use softmodem_rs.Modem.Information.{information}
use softmodem_rs.Modem.Session.{
  Mode, Ringing, Modem, LineOps, World, command, handshake, data_mode, online_command,
}
use softmodem_rs.Modem.Session.Calls.{is_some, reject_ringing}
use softmodem_rs.Modem.Session.Computer.{
  keys_of, inform, other, execute_one, execute_all, execute_parsed, execute, send_line, send_data,
  execute_input, type_byte, byte_sent, computer_sent,
}
use softmodem_rs.Modem.Session.Shape.{IsModem, is_command}
use softmodem_rs.Modem.Session.Shape.Basic.{
  write-IsModem, report-IsModem, sync_dcd-IsModem, hang_up_with-IsModem, put_down-IsModem,
}
use softmodem_rs.Modem.Session.Shape.Calls.{answer-IsModem, dial-IsModem, online-IsModem}

module _ {L S : Type 0} where
  pub settings-IsModem :
      (s : Settings) (m : Modem L S)
      → IsSettings s
      → IsModem m
      → IsModem (record m { settings = s })
  settings-IsModem s m k h = record { agrees = h.agrees; settings = k; profile = h.profile }

  inform-IsModem :
      (o : Option (List ℕ)) (c : Command) (m : Modem L S)
      → IsCommand c
      → IsModem m
      → IsModem (inform o c m)
  inform-IsModem (some text) c m k h = write-IsModem _ m h
  inform-IsModem none c m k h = settings-IsModem _ m (apply-IsSettings c m.settings k h.settings) h

  other-IsModem :
      (version : List ℕ) (c : Command) (m : Modem L S)
      → IsCommand c
      → IsModem m
      → IsModem (other version c m)
  other-IsModem version c m k h = inform-IsModem (information version m.settings c) c m k h

  pub editor-IsModem :
      (d : LineEditor) (m : Modem L S) → IsModem m → IsModem (record m { editor = d })
  editor-IsModem d m h = record { agrees = h.agrees; settings = h.settings; profile = h.profile }

  pub off_hook-IsModem : (m : Modem L S) → IsModem m → IsModem (record m { off_hook = false })
  off_hook-IsModem m h = record {
    agrees = ground (arith, h.agrees);
    settings = h.settings;
    profile = h.profile;
  }

  lift-IsModem :
      (r : Option Ringing) (m : Modem L S)
      → m.ringing ≡ r
      → IsModem m
      → IsModem (reject_ringing r (record m { off_hook = true }))
  lift-IsModem none m e h = record {
    agrees = ground (arith, subst (λ o. is_some o ≡ false) (sym e) refl, h.agrees);
    settings = h.settings;
    profile = h.profile;
  }
  lift-IsModem (some r) m e h = record {
    agrees = ground (arith, h.agrees);
    settings = h.settings;
    profile = h.profile;
  }

module _ {L C S : Type 0} (ops : LineOps L C S) where
  pub send_line-is_some :
      (w : World C S) (bytes : List ℕ) (l : Option L)
      → is_some (send_line ops w bytes l) ≡ is_some l
  send_line-is_some w bytes none = refl
  send_line-is_some w bytes (some l) = refl

module _ {L C S : Type 0} (version : List ℕ) (ops : LineOps L C S) where
  execute_one-IsModem :
      (w : World C S) (c : Command) (m : Modem L S)
      → IsCommand c
      → IsModem m
      → IsModem (execute_one version ops w c m).0
  unfolding execute_one
  execute_one-IsModem w Command.answer m k h = answer-IsModem ops w m h
  execute_one-IsModem w (Command.dial d) m k h = dial-IsModem ops w d m h
  execute_one-IsModem w (Command.online retrain) m k h = online-IsModem ops w retrain m h
  execute_one-IsModem w Command.reset m k h =
      settings-IsModem m.profile _ h.profile (put_down-IsModem ops w m h)
  execute_one-IsModem w Command.factory_reset m k h =
      settings-IsModem default _ default-IsSettings (put_down-IsModem ops w m h)
  execute_one-IsModem w (Command.off_hook true) m k h = lift-IsModem m.ringing m refl h
  execute_one-IsModem w (Command.off_hook false) m k h =
      off_hook-IsModem _ (put_down-IsModem ops w m h)
  execute_one-IsModem w (Command.echo on) m k h = other-IsModem version (Command.echo on) m k h
  execute_one-IsModem w (Command.identify n) m k h =
      other-IsModem version (Command.identify n) m k h
  execute_one-IsModem w (Command.loudness n) m k h =
      other-IsModem version (Command.loudness n) m k h
  execute_one-IsModem w (Command.monitor n) m k h = other-IsModem version (Command.monitor n) m k h
  execute_one-IsModem w (Command.quiet on) m k h = other-IsModem version (Command.quiet on) m k h
  execute_one-IsModem w (Command.verbose on) m k h =
      other-IsModem version (Command.verbose on) m k h
  execute_one-IsModem w (Command.result_set n) m k h =
      other-IsModem version (Command.result_set n) m k h
  execute_one-IsModem w (Command.carrier_detect on) m k h =
      other-IsModem version (Command.carrier_detect on) m k h
  execute_one-IsModem w (Command.set_register r n) m k h =
      other-IsModem version (Command.set_register r n) m k h
  execute_one-IsModem w (Command.read_register r) m k h =
      other-IsModem version (Command.read_register r) m k h
  execute_one-IsModem w (Command.set_carrier c auto rate) m k h =
      other-IsModem version (Command.set_carrier c auto rate) m k h
  execute_one-IsModem w Command.read_carrier m k h =
      other-IsModem version Command.read_carrier m k h
  execute_one-IsModem w Command.list_carriers m k h =
      other-IsModem version Command.list_carriers m k h
  execute_one-IsModem w (Command.set_error_control a b c) m k h =
      other-IsModem version (Command.set_error_control a b c) m k h
  execute_one-IsModem w Command.read_error_control m k h =
      other-IsModem version Command.read_error_control m k h
  execute_one-IsModem w Command.list_error_control m k h =
      other-IsModem version Command.list_error_control m k h
  execute_one-IsModem w (Command.report_error_control on) m k h =
      other-IsModem version (Command.report_error_control on) m k h
  execute_one-IsModem w Command.read_error_report m k h =
      other-IsModem version Command.read_error_report m k h
  execute_one-IsModem w Command.list_error_report m k h =
      other-IsModem version Command.list_error_report m k h
  execute_one-IsModem w (Command.set_compression a b c d) m k h =
      other-IsModem version (Command.set_compression a b c d) m k h
  execute_one-IsModem w Command.read_compression m k h =
      other-IsModem version Command.read_compression m k h
  execute_one-IsModem w Command.list_compression m k h =
      other-IsModem version Command.list_compression m k h
  execute_one-IsModem w (Command.report_compression on) m k h =
      other-IsModem version (Command.report_compression on) m k h
  execute_one-IsModem w Command.read_compression_report m k h =
      other-IsModem version Command.read_compression_report m k h
  execute_one-IsModem w Command.list_compression_report m k h =
      other-IsModem version Command.list_compression_report m k h
  execute_one-IsModem w (Command.asks q) m k h = other-IsModem version (Command.asks q) m k h
  execute_one-IsModem w Command.ignored m k h = other-IsModem version Command.ignored m k h

  execute_all-IsModem :
      (w : World C S) (cs : List Command) (m : Modem L S)
      → All IsCommand cs
      → IsModem m
      → IsModem (execute_all version ops w cs m)
  unfolding execute_all
  execute_all-IsModem w [] m ks h = sync_dcd-IsModem ops _ (report-IsModem _ m h)
  execute_all-IsModem w (c ∷ cs) m (k, ks) h =
      let one = execute_one-IsModem w c m k h in
      if_cases IsModem (execute_one version ops w c m).1 _ _
        (λ _. execute_all-IsModem w cs _ ks one) (λ _. one)

  execute_parsed-IsModem :
      (w : World C S) (r : Result ParseError (List Command)) (m : Modem L S)
      → ((cs : List Command) → r ≡ Result.ok cs → All IsCommand cs)
      → IsModem m
      → IsModem (execute_parsed version ops w r m)
  execute_parsed-IsModem w (Result.err e) m k h = report-IsModem _ m h
  execute_parsed-IsModem w (Result.ok cs) m k h = execute_all-IsModem w cs m (k cs refl) h

  pub execute-IsModem :
      (w : World C S) (text : List ℕ) (m : Modem L S)
      → IsModem m
      → IsModem (execute version ops w text m)
  unfolding execute
  execute-IsModem w text m h = execute_parsed-IsModem w (parse text) m (parse-IsCommand text) h

  execute_input-IsModem :
      (w : World C S) (i : Option Input) (m : Modem L S)
      → IsModem m
      → IsModem (execute_input version ops w i m).0
  execute_input-IsModem w none m h = h
  execute_input-IsModem w (some (line text)) m h = execute-IsModem w text m h
  execute_input-IsModem w (some (repeat text)) m h = execute-IsModem w text m h

  type_byte-IsModem :
      (w : World C S) (t : (LineEditor × Option Input) × List ℕ) (m : Modem L S)
      → IsModem m
      → IsModem (type_byte version ops w t m).0
  type_byte-IsModem w ((d, i), echo) m h =
      execute_input-IsModem w i _ (write-IsModem echo _ (editor-IsModem d m h))

  send_data-IsModem :
      (w : World C S) (d : EscapeDetector) (e : EscapeDetector × List ℕ) (m : Modem L S)
      → m.mode ≡ data_mode d
      → IsModem m
      → IsModem (send_data ops w e m)
  send_data-IsModem w d (d', bytes) m f h = record {
    agrees = ground (
      arith,
      send_line-is_some ops w bytes m.line,
      subst (λ x. is_command x ≡ false) (sym f) refl,
      h.agrees,
    );
    settings = h.settings;
    profile = h.profile;
  }

  byte_sent-IsModem :
      (w : World C S) (mode : Mode) (byte : ℕ) (m : Modem L S)
      → m.mode ≡ mode
      → IsModem m
      → IsModem (byte_sent version ops w mode byte m).0
  unfolding byte_sent
  byte_sent-IsModem w (data_mode d) byte m e h = send_data-IsModem w d _ m e h
  byte_sent-IsModem w (handshake deadline) byte m e h = hang_up_with-IsModem ops _ m h
  byte_sent-IsModem w command byte m e h =
      type_byte-IsModem w (Line.push (keys_of m.settings) m.editor byte []) m h
  byte_sent-IsModem w online_command byte m e h =
      type_byte-IsModem w (Line.push (keys_of m.settings) m.editor byte []) m h

  pub computer_sent-IsModem :
      (bytes : List (ℕ × World C S)) (m : Modem L S)
      → IsModem m
      → IsModem (computer_sent version ops bytes m)
  unfolding computer_sent
  computer_sent-IsModem [] m h = h
  computer_sent-IsModem ((byte, w) ∷ bytes) m h =
      let one = byte_sent-IsModem w m.mode byte m refl h in
      if_cases IsModem (byte_sent version ops w m.mode byte m).1 _ _
        (λ _. computer_sent-IsModem bytes _ one) (λ _. one)
