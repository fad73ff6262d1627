-- ===== src/Modem/Session/Shape/Calls.antt =====
-- About the parts of the modem.rs state, in calls that come in, are answered and are dialled.
use softmodem_rs.Prelude.{
  ℕ, ◌≤◌, ◌≡◌, refl, sym, subst, Bool, true, false, not, ◌||◌, if_cases, Option, none, some, List,
  arith, set,
}
use softmodem_rs.Lapm.State.{Role}
use softmodem_rs.Terminal.Command.{Dial, set_register}
use softmodem_rs.Terminal.Settings.{Settings, apply, auto_answer_rings}
use softmodem_rs.Terminal.Settings.Ranges.{IsSettings, apply-IsSettings}
use softmodem_rs.Modem.Session.{
  Modem, LineOps, World, Outcome, dialled, is_busy, failed, given_up, Ringing, set_ring, rejected,
  is_empty, online_command,
}
use softmodem_rs.Modem.Session.Calls.{
  is_some, attach, lower_ring, stop_ringing, count_rings, take_call, answer_ringing, answer,
  reject_ringing, place, dial_to, dial, number_of, go_online, online, Incoming, ringing, gone,
  is_caller, incoming, rings_after, rung, answers_now, ring_once, ring_now,
}
use softmodem_rs.Modem.Session.Shape.{IsModem}
use softmodem_rs.Modem.Session.Shape.Basic.{act-IsModem, report-IsModem, on_line-IsModem}

-- The state is in order, and nothing rings.
abbrev pub IsQuiet : {L S : Type 0} → Modem L S → Type 0
IsQuiet m = IsModem m × (is_some m.ringing ≡ false)

count-IsSettings :
    (n : ℕ) (s : Settings)
    → n ≤ 255
    → IsSettings s
    → IsSettings (record s { registers = set s.registers 1 n })
unfolding apply
count-IsSettings n s h k = apply-IsSettings (set_register 1 n) s (omega arith, h) k

module _ {L S : Type 0} where
  lower_ring-IsModem : (o : Option ℕ) (m : Modem L S) → IsModem m → IsModem (lower_ring o m)
  lower_ring-IsModem none m h = h
  lower_ring-IsModem (some at) m h = record {
    agrees = h.agrees;
    settings = h.settings;
    profile = h.profile;
  }

  pub stop_ringing-IsModem : (m : Modem L S) → IsModem m → IsModem (stop_ringing m)
  unfolding stop_ringing
  stop_ringing-IsModem m h = lower_ring-IsModem m.ring_off m h

  count_rings-IsModem : (n : ℕ) (m : Modem L S) → n ≤ 255 → IsModem m → IsModem (count_rings n m)
  count_rings-IsModem n m le h = record {
    agrees = h.agrees;
    settings = count-IsSettings n m.settings le h.settings;
    profile = h.profile;
  }

  pub silent-IsQuiet : (m : Modem L S) → IsModem m → IsQuiet (record m { ringing = none })
  silent-IsQuiet m h = (
    record { agrees = ground (arith, h.agrees); settings = h.settings; profile = h.profile },
    refl,
  )

  pub reject_ringing-IsQuiet :
      (r : Option Ringing) (m : Modem L S)
      → m.ringing ≡ r
      → IsModem m
      → IsQuiet (reject_ringing r m)
  reject_ringing-IsQuiet none m e h = (h, subst (λ r. is_some r ≡ false) (sym e) refl)
  reject_ringing-IsQuiet (some r) m e h =
      (act-IsModem (rejected r.caller) _ (silent-IsQuiet m h).0, refl)

  line_of : {l : L} (m : Modem L S) → m.line ≡ some l → is_some m.line ≡ true
  line_of m e = subst (λ o. is_some o ≡ true) (sym e) refl

  pub incoming-IsModem :
      {C : Type 0} (w : World C S) (i : Incoming) (m : Modem L S)
      → IsModem m
      → IsModem (incoming w i m)
  unfolding incoming
  incoming-IsModem w (ringing caller) m h =
      if_cases IsModem (m.off_hook || is_some m.line || is_some m.ringing) _ _
        (λ _. act-IsModem (rejected caller) m h)
        (λ e. record {
          agrees = ground (arith, e, h.agrees);
          settings = count-IsSettings 0 m.settings (omega arith) h.settings;
          profile = h.profile;
        })
  incoming-IsModem w (gone caller) m h =
      if_cases IsModem (is_caller m.ringing caller) _ m
        (λ _.
          count_rings-IsModem 0 _ (omega arith)
            (silent-IsQuiet (stop_ringing m) (stop_ringing-IsModem m h)).0)
        (λ _. h)

  rung-IsModem :
      {C : Type 0} (w : World C S) (r : Ringing) (m : Modem L S)
      → is_some m.ringing ≡ true
      → IsModem m
      → IsModem (rung w r m)
  rung-IsModem w r m e h = report-IsModem _ _ (
      act-IsModem (set_ring true) _ (record {
        agrees = ground (arith, e, h.agrees);
        settings = count-IsSettings (rings_after m) m.settings (ground arith) h.settings;
        profile = h.profile;
      }))

module _ {L C S : Type 0} (ops : LineOps L C S) where
  attach-IsModem :
      (call : C) (role : Option Role) (deadline : ℕ) (digits : Option (List ℕ × ℕ)) (m : Modem L S)
      → IsQuiet m
      → IsModem (attach ops call role deadline digits m)
  unfolding attach
  attach-IsModem call role deadline digits m (h, e) = record {
    agrees = ground (arith, e);
    settings = h.settings;
    profile = h.profile;
  }

  take_call-IsModem :
      (w : World C S) (o : Option C) (m : Modem L S) → IsQuiet m → IsModem (take_call ops w o m)
  take_call-IsModem w none m (h, e) = report-IsModem _ m h
  take_call-IsModem w (some call) m h = attach-IsModem call _ _ _ m h

  answer_ringing-IsModem :
      (w : World C S) (r : Option Ringing) (m : Modem L S)
      → IsModem m
      → IsModem (answer_ringing ops w r m)
  answer_ringing-IsModem w none m h = report-IsModem _ m h
  answer_ringing-IsModem w (some r) m h =
      let (q, e) = silent-IsQuiet m h in
      take_call-IsModem w w.answered _ (count_rings-IsModem 0 _ (omega arith) q, e)

  pub answer-IsModem : (w : World C S) (m : Modem L S) → IsModem m → IsModem (answer ops w m)
  unfolding answer
  answer-IsModem w m h = answer_ringing-IsModem w m.ringing _ (stop_ringing-IsModem m h)

  -- A call that stays in command mode has its line.
  stay-IsModem :
      (call : C) (deadline : ℕ) (digits : Option (List ℕ × ℕ)) (m : Modem L S)
      → IsQuiet m
      → IsModem (record (attach ops call none deadline digits m) { mode = online_command })
  unfolding attach
  stay-IsModem call deadline digits m (h, e) = record {
    agrees = ground (arith, e);
    settings = h.settings;
    profile = h.profile;
  }

  place-IsModem :
      (w : World C S) (d : Dial) (after : List ℕ) (deadline : ℕ) (o : Outcome C) (m : Modem L S)
      → IsQuiet m
      → IsModem (place ops w d after deadline o m)
  place-IsModem w d after deadline is_busy m (h, e) = report-IsModem _ m h
  place-IsModem w d after deadline failed m (h, e) = report-IsModem _ m h
  place-IsModem w d after deadline given_up m (h, e) = report-IsModem _ m h
  place-IsModem w d after deadline (dialled call) m h =
      if_cases IsModem d.stay_in_command_mode _ _
        (λ _. report-IsModem _ _ (stay-IsModem call deadline _ m h))
        (λ _. attach-IsModem call _ deadline _ m h)

  dial_to-IsModem :
      (w : World C S) (d : Dial) (n : Option (List ℕ × List ℕ)) (m : Modem L S)
      → IsModem m
      → IsModem (dial_to ops w d n m)
  dial_to-IsModem w d none m h = report-IsModem _ m h
  dial_to-IsModem w d (some (number, after)) m h =
      if_cases IsModem (is_empty number) _ _ (λ _. report-IsModem _ m h)
        (λ _. place-IsModem w d after _ w.outcome _ (
          reject_ringing-IsQuiet m.ringing _ refl
            (record { agrees = h.agrees; settings = h.settings; profile = h.profile })))

  pub dial-IsModem :
      (w : World C S) (d : Dial) (m : Modem L S) → IsModem m → IsModem (dial ops w d m)
  unfolding dial
  dial-IsModem w d m h =
      if_cases IsModem (is_some m.line) _ _ (λ _. report-IsModem _ m h)
        (λ _. dial_to-IsModem w d (number_of d m.last_number) m h)

  go_online-IsModem :
      (w : World C S) (retrain : Bool) (l : Option L) (m : Modem L S)
      → m.line ≡ l
      → IsModem m
      → IsModem (go_online ops w retrain l m)
  go_online-IsModem w retrain none m e h = report-IsModem _ m h
  go_online-IsModem w retrain (some l) m e h =
      if_cases IsModem (not (ops.has_handshake l)) _ _
        (λ _. on_line-IsModem _ _ m (line_of m e) refl h)
        (λ _. report-IsModem _ _ (on_line-IsModem _ _ m (line_of m e) refl h))

  pub online-IsModem :
      (w : World C S) (retrain : Bool) (m : Modem L S)
      → IsModem m
      → IsModem (online ops w retrain m)
  unfolding online
  online-IsModem w retrain m h = go_online-IsModem w retrain m.line m refl h

  ring_once-IsModem :
      (w : World C S) (r : Option Ringing) (m : Modem L S)
      → m.ringing ≡ r
      → IsModem m
      → IsModem (ring_once ops w r m)
  ring_once-IsModem w none m e h = h
  ring_once-IsModem w (some r) m e h =
      let k = rung-IsModem w r m (subst (λ o. is_some o ≡ true) (sym e) refl) h in
      if_cases IsModem (answers_now (auto_answer_rings (rung w r m).settings) (rings_after m)) _
        (rung w r m) (λ _. answer-IsModem w _ k) (λ _. k)

  pub ring_now-IsModem : (w : World C S) (m : Modem L S) → IsModem m → IsModem (ring_now ops w m)
  unfolding ring_now
  ring_now-IsModem w m h = ring_once-IsModem w m.ringing m refl h
