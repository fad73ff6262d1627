-- ===== src/Modem/Session/Shape/Basic.antt =====
-- About the parts of the modem.rs state, when it writes, hangs up and follows DCD.
use softmodem_rs.Prelude.{
  ℕ, ◌≡◌, refl, sym, subst, Bool, true, false, not, ◌&&◌, ◌||◌, if_cases, Option, none, some, List,
  arith,
}
use softmodem_rs.Terminal.Settings.Report.{ResultCode}
use softmodem_rs.Terminal.Settings.Report
use softmodem_rs.Modem.Session.{
  Mode, Modem, LineOps, World, Act, act, wrote, write, is_empty, report, with_dcd, wanted_dcd,
  sync_dcd, end_call, hang_up, hang_up_with, clear_line, clear_down, put_down,
}
use softmodem_rs.Modem.Session.Calls.{is_some}
use softmodem_rs.Modem.Session.Shape.{IsModem, agree, is_command}

module _ {L S : Type 0} where
  pub act-IsModem : (a : Act S) (m : Modem L S) → IsModem m → IsModem (act a m)
  act-IsModem a m h = record { agrees = h.agrees; settings = h.settings; profile = h.profile }

  pub write-IsModem : (bytes : List ℕ) (m : Modem L S) → IsModem m → IsModem (write bytes m)
  write-IsModem bytes m h =
      if_cases IsModem (is_empty bytes) m _ (λ _. h) (λ _. act-IsModem (wrote bytes) m h)

  pub report-IsModem : (code : ResultCode) (m : Modem L S) → IsModem m → IsModem (report code m)
  unfolding report
  report-IsModem code m h = write-IsModem (Report.report m.settings code) m h

  -- A line in place of a line.
  pub with_line-IsModem :
      (l : Option L) (m : Modem L S)
      → is_some l ≡ is_some m.line
      → IsModem m
      → IsModem (record m { line = l })
  with_line-IsModem l m e h = record {
    agrees =
        subst
          (λ b.
            agree b (is_command m.mode) (is_some m.ringing) m.off_hook (is_some m.connection)
            ≡ true)
          (sym e) h.agrees;
    settings = h.settings;
    profile = h.profile;
  }

  -- A line in place of a line, and any mode but the command mode.
  pub on_line-IsModem :
      (l : L) (mode : Mode) (m : Modem L S)
      → is_some m.line ≡ true
      → is_command mode ≡ false
      → IsModem m
      → IsModem (record m { line = some l; mode = mode })
  on_line-IsModem l mode m e f h = record {
    agrees = ground (arith, e, f, h.agrees);
    settings = h.settings;
    profile = h.profile;
  }

  with_dcd-IsModem : (dcd : Bool) (m : Modem L S) → IsModem m → IsModem (with_dcd dcd m)
  with_dcd-IsModem dcd m h =
      if_cases IsModem (dcd && m.dcd || not dcd && not m.dcd) m _ (λ _. h)
        (λ _. record { agrees = h.agrees; settings = h.settings; profile = h.profile })

  -- With no line, in command mode and with no connection, only the ringing is left to agree.
  pub hang_up-IsModem : (m : Modem L S) → IsModem m → IsModem (hang_up m)
  unfolding hang_up
  hang_up-IsModem m h = of_line m.line
    where
      of_line :
          (l : Option L)
          → IsModem (record (end_call l m) {
            line = none;
            mode = Mode.command;
            carrier_lost_at = none;
            connection = none;
          })
      of_line none = record {
        agrees = ground (arith, h.agrees);
        settings = h.settings;
        profile = h.profile;
      }
      of_line (some l) = record {
        agrees = ground (arith, h.agrees);
        settings = h.settings;
        profile = h.profile;
      }

module _ {L C S : Type 0} where
  pub sync_dcd-IsModem :
      (ops : LineOps L C S) (m : Modem L S) → IsModem m → IsModem (sync_dcd ops m)
  unfolding sync_dcd
  sync_dcd-IsModem ops m h = with_dcd-IsModem (wanted_dcd ops m) m h

  pub hang_up_with-IsModem :
      (ops : LineOps L C S) (code : ResultCode) (m : Modem L S)
      → IsModem m
      → IsModem (hang_up_with ops code m)
  unfolding hang_up_with
  hang_up_with-IsModem ops code m h =
      sync_dcd-IsModem ops _ (report-IsModem code _ (hang_up-IsModem m h))

  clear_line-is_some :
      (ops : LineOps L C S) (w : World C S) (l : Option L)
      → is_some (clear_line ops w l) ≡ is_some l
  clear_line-is_some ops w none = refl
  clear_line-is_some ops w (some l) = refl

  clear_down-IsModem :
      (ops : LineOps L C S) (w : World C S) (m : Modem L S)
      → IsModem m
      → IsModem (clear_down ops w m)
  unfolding clear_down
  clear_down-IsModem ops w m h =
      with_line-IsModem (clear_line ops w m.line) m (clear_line-is_some ops w m.line) h

  pub put_down-IsModem :
      (ops : LineOps L C S) (w : World C S) (m : Modem L S) → IsModem m → IsModem (put_down ops w m)
  unfolding put_down
  put_down-IsModem ops w m h = hang_up-IsModem _ (clear_down-IsModem ops w m h)
