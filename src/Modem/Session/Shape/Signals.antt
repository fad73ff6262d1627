-- ===== src/Modem/Session/Shape/Signals.antt =====
-- About the parts of the modem.rs state, under the ticks of a call and what its line hears.
use softmodem_rs.Prelude.{
  ℕ, ◌-◌, ◌≡◌, refl, sym, subst, Bool, true, false, not, ◌&&◌, leb, if_cases, Option, none, some,
  List, arith,
}
use softmodem_rs.Terminal.Escape.{EscapeDetector, Timeout, escaped, release}
use softmodem_rs.Terminal.Escape
use softmodem_rs.Terminal.Settings.{escape_guard, carrier_loss_hang_up}
use softmodem_rs.Terminal.Settings.Report.{connect_code}
use softmodem_rs.Modem.Session.{
  Mode, Modem, LineOps, World, Received, command, handshake, data_mode, online_command,
  is_connected, sounded,
}
use softmodem_rs.Modem.Session.Calls.{is_some}
use softmodem_rs.Modem.Session.Computer.{send_line}
use softmodem_rs.Modem.Session.Signals.{
  Sending, error_text, compression_text, no_room, taken, full, closed, is_data, is_handshake, told,
  enter_data, deliver, hear, hear_on, line_sent, timed_out, lost_since, watch_carrier, watch,
  keep_line, put_frame, send_frame, tick_on, tick,
}
use softmodem_rs.Modem.Session.Shape.{IsModem, is_command}
use softmodem_rs.Modem.Session.Shape.Computer.{send_line-is_some}
use softmodem_rs.Modem.Session.Shape.Basic.{
  act-IsModem, write-IsModem, report-IsModem, sync_dcd-IsModem, hang_up_with-IsModem,
  with_line-IsModem,
}

-- The state is in order, and there is a line.
abbrev IsOnLine : {L S : Type 0} → Modem L S → Type 0
IsOnLine m = IsModem m × (is_some m.line ≡ true)

module _ {L S : Type 0} where
  told-IsModem :
      (asked : Bool) (text : List ℕ) (m : Modem L S) → IsModem m → IsModem (told asked text m)
  told-IsModem asked text m h =
      if_cases IsModem (asked && not m.settings.quiet) _ m (λ _. write-IsModem _ m h) (λ _. h)

  deliver-IsModem : (bytes : List ℕ) (m : Modem L S) → IsModem m → IsModem (deliver bytes m)
  deliver-IsModem bytes m h =
      if_cases IsModem (is_data m.mode) _ m
        (λ _.
          write-IsModem bytes _
            (record { agrees = h.agrees; settings = h.settings; profile = h.profile }))
        (λ _. h)

  line-IsOnLine :
      (l l' : L) (m : Modem L S)
      → m.line ≡ some l
      → IsModem m
      → IsOnLine (record m { line = some l' })
  line-IsOnLine l l' m e h =
      (with_line-IsModem (some l') m (subst (λ o. true ≡ is_some o) (sym e) refl) h, refl)

  mode-IsModem :
      (mode : Mode) (m : Modem L S)
      → is_command mode ≡ false
      → IsOnLine m
      → IsModem (record m { mode = mode })
  mode-IsModem mode m f (h, e) = record {
    agrees = ground (arith, e, f, h.agrees);
    settings = h.settings;
    profile = h.profile;
  }

  lost-IsModem :
      (at : Option ℕ) (m : Modem L S) → IsModem m → IsModem (record m { carrier_lost_at = at })
  lost-IsModem at m h = record { agrees = h.agrees; settings = h.settings; profile = h.profile }

module _ {L C S : Type 0} (ops : LineOps L C S) where
  pub enter_data-IsModem :
      (now : ℕ) (r : Received) (rate : ℕ) (m : Modem L S)
      → IsOnLine m
      → IsModem (enter_data ops now r rate m)
  unfolding enter_data
  enter_data-IsModem now r rate m (h, e) = sync_dcd-IsModem ops _ (
      report-IsModem (connect_code rate) _ (
        told-IsModem m.settings.compression.report (compression_text r) _ (
          told-IsModem m.settings.error_control.report (error_text r) _ (record {
            agrees = ground (arith, e, h.agrees);
            settings = h.settings;
            profile = h.profile;
          }))))

  hear-IsModem :
      (w : World C S) (x : L × Received) (l : L) (m : Modem L S)
      → m.line ≡ some l
      → IsModem m
      → IsModem (hear ops w m x)
  hear-IsModem w (l', r) l m e h =
      let on = line-IsOnLine l l' m e h in
      if_cases IsModem (ops.released l') _ _ (λ _. hang_up_with-IsModem ops _ _ on.0)
        (λ _. deliver-IsModem r.bytes _ (
          if_cases IsModem (r.connected && is_handshake m.mode) _ _
            (λ _. enter_data-IsModem w.now r _ _ on) (λ _. on.0)))

  hear_on-IsModem :
      (w : World C S) (samples : S) (o : Option L) (m : Modem L S)
      → m.line ≡ o
      → IsModem m
      → IsModem (hear_on ops w samples o m)
  hear_on-IsModem w samples none m e h = h
  hear_on-IsModem w samples (some l) m e h = hear-IsModem w (ops.receive l samples w.now) l m e h

  pub line_sent-IsModem :
      (w : World C S) (o : Option S) (m : Modem L S) → IsModem m → IsModem (line_sent ops w o m)
  unfolding line_sent
  line_sent-IsModem w none m h = hang_up_with-IsModem ops _ m h
  line_sent-IsModem w (some samples) m h = hear_on-IsModem w samples m.line m refl h

  timed_out-IsModem :
      (w : World C S) (x : EscapeDetector × Option Timeout) (m : Modem L S)
      → IsOnLine m
      → IsModem (timed_out ops w x m)
  timed_out-IsModem w (d, none) m h = mode-IsModem (data_mode d) m refl h
  timed_out-IsModem w (d, some escaped) m h =
      report-IsModem _ _ (mode-IsModem online_command m refl h)
  timed_out-IsModem w (d, some (release bytes)) m (h, e) =
      with_line-IsModem (send_line ops w bytes m.line) _ (send_line-is_some ops w bytes m.line)
        (mode-IsModem (data_mode d) m refl (h, e))

  watch_carrier-IsModem :
      (w : World C S) (handshaken carrier : Bool) (m : Modem L S)
      → IsModem m
      → IsModem (watch_carrier ops w handshaken carrier m)
  watch_carrier-IsModem w handshaken carrier m h =
      if_cases IsModem (not (is_connected m.mode && handshaken)) m _ (λ _. h)
        (λ _.
          if_cases IsModem carrier _ _ (λ _. lost-IsModem none m h)
            (λ _.
              if_cases IsModem
                (leb (carrier_loss_hang_up m.settings) (w.now - lost_since m.carrier_lost_at w.now))
                _ _ (λ _. hang_up_with-IsModem ops _ _ (lost-IsModem _ m h))
                (λ _. lost-IsModem _ m h)))

  watch-IsModem :
      (w : World C S) (l : L) (mode : Mode) (m : Modem L S)
      → IsOnLine m
      → IsModem (watch ops w l mode m)
  watch-IsModem w l command m (h, e) = watch_carrier-IsModem w _ _ m h
  watch-IsModem w l online_command m (h, e) = watch_carrier-IsModem w _ _ m h
  watch-IsModem w l (handshake deadline) m (h, e) =
      if_cases IsModem (leb deadline w.now) _ _ (λ _. hang_up_with-IsModem ops _ m h)
        (λ _. watch_carrier-IsModem w _ _ m h)
  watch-IsModem w l (data_mode d) m h =
      watch_carrier-IsModem w _ _ _
        (timed_out-IsModem w (Escape.poll d (escape_guard m.settings) w.now) m h)

  keep_line-IsModem :
      (w : World C S) (l l' : L) (m : Modem L S)
      → m.line ≡ some l
      → IsModem m
      → IsModem (keep_line ops w l' m)
  keep_line-IsModem w l l' m e h =
      let on = line-IsOnLine l l' m e h in
      if_cases IsModem (ops.cleared l') _ _ (λ _. hang_up_with-IsModem ops _ _ on.0)
        (λ _. watch-IsModem w l' m.mode _ on)

  put_frame-IsModem :
      (w : World C S) (sending : Sending) (x : L × S) (l : L) (m : Modem L S)
      → m.line ≡ some l
      → IsModem m
      → IsModem (put_frame ops w sending x m)
  put_frame-IsModem w closed (l', samples) l m e h =
      hang_up_with-IsModem ops _ _ (line-IsOnLine l l' m e h).0
  put_frame-IsModem w full (l', samples) l m e h = keep_line-IsModem w l _ m e h
  put_frame-IsModem w taken (l', samples) l m e h =
      keep_line-IsModem w l l' _ e (act-IsModem (sounded samples) m h)
  put_frame-IsModem w no_room (l', samples) l m e h = keep_line-IsModem w l l' m e h

  send_frame-IsModem :
      (w : World C S) (sending : Sending) (x : L × S) (l : L) (m : Modem L S)
      → m.line ≡ some l
      → IsModem m
      → IsModem (send_frame ops w sending x m)
  send_frame-IsModem w sending (l', samples) l m e h =
      if_cases IsModem (ops.released l') _ _
        (λ _. hang_up_with-IsModem ops _ _ (line-IsOnLine l l' m e h).0)
        (λ _. put_frame-IsModem w sending (l', samples) l m e h)

  tick_on-IsModem :
      (w : World C S) (sending : Sending) (o : Option L) (m : Modem L S)
      → m.line ≡ o
      → IsModem m
      → IsModem (tick_on ops w sending o m)
  tick_on-IsModem w sending none m e h = h
  tick_on-IsModem w no_room (some l) m e h = keep_line-IsModem w l l m e h
  tick_on-IsModem w taken (some l) m e h = send_frame-IsModem w taken (ops.transmit l w.now) l m e h
  tick_on-IsModem w full (some l) m e h = send_frame-IsModem w full (ops.transmit l w.now) l m e h
  tick_on-IsModem w closed (some l) m e h =
      send_frame-IsModem w closed (ops.transmit l w.now) l m e h

  pub tick-IsModem :
      (w : World C S) (sending : Sending) (m : Modem L S)
      → IsModem m
      → IsModem (tick ops w sending m)
  unfolding tick
  tick-IsModem w sending m h = tick_on-IsModem w sending m.line m refl h
