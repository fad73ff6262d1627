-- ===== src/Modem/Session/Rings/Taking.antt =====
-- About one `ring` of softmodem/src/modem.rs, and the answer that it may come to.
use softmodem_rs.Prelude.{
  ℕ, zero, suc, ◌+◌, ◌*◌, ◌≤◌, ◌≡◌, refl, ◌∙◌, ap, subst, sym, Bool, true, false, if_cases, Option,
  none, some, List, [], ◌∷◌, arith, length, set, get_or, All,
}
use softmodem_rs.Terminal.Settings.Ranges.{IsByte}
use softmodem_rs.Lapm.State
use softmodem_rs.Terminal.Settings.{Settings, register, auto_answer_rings, carrier_wait}
use softmodem_rs.Modem.Session.{
  Modem, LineOps, World, Ringing, report, is_empty, ring_interval, handshake,
}
use softmodem_rs.Modem.{header}
use softmodem_rs.Modem.Session.Calls.{
  is_some, lower_ring, stop_ringing, count_rings, take_call, attach, answer_ringing, answer,
  rings_after, rung, answers_now, ring_once,
}
use softmodem_rs.Terminal.Settings.Report.{ResultCode, ring}
use softmodem_rs.Terminal.Settings.Report

get-set : (xs : List ℕ) (n : ℕ) → length xs ≡ 256 → get_or (set xs 1 n) 1 0 ≡ n
get-set [] n e = ground (arith, e)
get-set (x ∷ []) n e = ground (arith, e)
get-set (x ∷ y ∷ xs) n e = refl

get-set_above :
    (xs : List ℕ) (n i : ℕ) → get_or (set xs 1 n) (suc (suc i)) 0 ≡ get_or xs (suc (suc i)) 0
get-set_above [] n i = refl
get-set_above (x ∷ []) n i = refl
get-set_above (x ∷ y ∷ xs) n i = refl

get-set_other : (xs : List ℕ) (n : ℕ) → get_or (set xs 1 n) 0 0 ≡ get_or xs 0 0
get-set_other [] n = refl
get-set_other (x ∷ []) n = refl
get-set_other (x ∷ y ∷ xs) n = refl

pub get_or-byte : (xs : List ℕ) (i : ℕ) → All IsByte xs → get_or xs i 0 ≤ 255
get_or-byte [] i h = omega arith
get_or-byte (x ∷ xs) zero (b, h) = b
get_or-byte (x ∷ xs) (suc i) (b, h) = get_or-byte xs i h

module _ {L S : Type 0} where
  -- What of the state the rings change, which writing leaves alone.
  abbrev rings_of : Modem L S → Settings × Option Ringing
  rings_of m = (m.settings, m.ringing)

  rings_of-report : (code : ResultCode) (m : Modem L S) → rings_of (report code m) ≡ rings_of m
  unfolding report
  rings_of-report code m =
      if_cases (λ x. rings_of x ≡ rings_of m) (is_empty (Report.report m.settings code)) m _
        (λ _. refl) (λ _. refl)

  rings_of-stop_ringing : (m : Modem L S) → rings_of (stop_ringing m) ≡ rings_of m
  unfolding stop_ringing
  rings_of-stop_ringing m = lowered m.ring_off
    where
      lowered : (o : Option ℕ) → rings_of (lower_ring o m) ≡ rings_of m
      lowered none = refl
      lowered (some at) = refl

-- The call is taken, with the settings of the state before: nothing rings, and the call has a line in the
-- answerer's role that is to connect in time.
abbrev pub Takes : {L C S : Type 0} → LineOps L C S → World C S → C → Modem L S → Modem L S → Type 0
Takes ops w call before after =
    (after.ringing ≡ none)
    × (after.line ≡ some (ops.new_line call (header before.settings (some State.answer)) none))
    × (after.mode ≡ handshake (w.now + carrier_wait before.settings))

abbrev recounted : Settings → ℕ → Settings
recounted s n = record s { registers = set s.registers 1 n }

carrier_wait-recounted : (s : Settings) (n : ℕ) → carrier_wait (recounted s n) ≡ carrier_wait s
carrier_wait-recounted s n = ap (λ seconds. seconds * 1000) (get-set_above s.registers n 5)

module _ {L C S : Type 0} (ops : LineOps L C S) where
  -- The settings that count for a line, with the rings counted anew.
  Takes-recounted :
      (w : World C S) (call : C) (before before' after : Modem L S) (n : ℕ)
      → before'.settings ≡ recounted before.settings n
      → Takes ops w call before' after
      → Takes ops w call before after
  unfolding header
  Takes-recounted w call before before' after n e (silent, line, mode) = (
    silent,
    line ∙ ap (λ s. some (ops.new_line call (header s (some State.answer)) none)) e,
    mode
        ∙ ap (λ s. handshake (w.now + carrier_wait s)) e
        ∙ ap (λ t. handshake (w.now + t)) (carrier_wait-recounted before.settings n),
  )

  take_call-Takes :
      (w : World C S) (o : Option C) (call : C) (m : Modem L S)
      → o ≡ some call
      → m.ringing ≡ none
      → Takes ops w call m (take_call ops w o m)
  unfolding attach
  take_call-Takes w o call m e silent =
      subst (λ x. Takes ops w call m (take_call ops w x m)) (sym e) (silent, refl, refl)

  answer_ringing-Takes :
      (w : World C S) (r : Ringing) (call : C) (m : Modem L S)
      → w.answered ≡ some call
      → Takes ops w call m (answer_ringing ops w (some r) m)
  answer_ringing-Takes w r call m e =
      let counted = count_rings 0 (record m { ringing = none }) in
      Takes-recounted w call m counted (take_call ops w w.answered counted) 0 refl
        (take_call-Takes w w.answered call counted e refl)

  answer-Takes :
      (w : World C S) (r : Ringing) (call : C) (m : Modem L S)
      → m.ringing ≡ some r
      → w.answered ≡ some call
      → Takes ops w call m (answer ops w m)
  unfolding answer
  answer-Takes w r call m e f =
      let same = ap (λ (x : Settings × Option Ringing). x.0) (rings_of-stop_ringing m) in
      let taken = answer_ringing-Takes w r call (stop_ringing m) f in
      subst (λ o. Takes ops w call m (answer_ringing ops w o (stop_ringing m))) (sym e)
        (
          taken.0,
          taken.1 ∙ ap (λ s. some (ops.new_line call (header s (some State.answer)) none)) same,
          taken.2 ∙ ap (λ s. handshake (w.now + carrier_wait s)) same,
        )

  rung-rings_of :
      (w : World C S) (r : Ringing) (m : Modem L S)
      → rings_of (rung w r m)
        ≡ rings_of (
            count_rings
              (rings_after m)
              (record m { ringing = some (record r { next_ring = r.next_ring + ring_interval }) }))
  rung-rings_of w r m = rings_of-report ring _

  auto_answer_rings-rung :
      (w : World C S) (r : Ringing) (m : Modem L S)
      → auto_answer_rings (rung w r m).settings ≡ auto_answer_rings m.settings
  auto_answer_rings-rung w r m =
      ap (λ (x : Settings × Option Ringing). auto_answer_rings x.0) (rung-rings_of w r m)
      ∙ get-set_other m.settings.registers (rings_after m)

  register-rung :
      (w : World C S) (r : Ringing) (m : Modem L S)
      → length m.settings.registers ≡ 256
      → register (rung w r m).settings 1 ≡ rings_after m
  register-rung w r m len =
      ap (λ (x : Settings × Option Ringing). register x.0 1) (rung-rings_of w r m)
      ∙ get-set m.settings.registers (rings_after m) len

  -- The test of `ring`, from the settings before it.
  abbrev pub answers : Modem L S → Bool
  answers m = answers_now (auto_answer_rings m.settings) (rings_after m)

  answers-rung :
      (w : World C S) (r : Ringing) (m : Modem L S)
      → answers_now (auto_answer_rings (rung w r m).settings) (rings_after m) ≡ answers m
  answers-rung w r m = ap (λ n. answers_now n (rings_after m)) (auto_answer_rings-rung w r m)

  pub ring_once-Takes :
      (w : World C S) (r : Option Ringing) (call : C) (m : Modem L S)
      → is_some r ≡ true
      → answers m ≡ true
      → w.answered ≡ some call
      → Takes ops w call m (ring_once ops w r m)
  ring_once-Takes w none call m e f g = absurd (ground (arith, e))
  ring_once-Takes w (some r) call m e f g =
      let rings = rung-rings_of w r m in
      if_cases (Takes ops w call m)
        (answers_now (auto_answer_rings (rung w r m).settings) (rings_after m)) _ (rung w r m)
        (λ _.
          Takes-recounted w call m (rung w r m) (answer ops w (rung w r m)) (rings_after m)
            (ap (λ (x : Settings × Option Ringing). x.0) rings)
            (answer-Takes w _ call (rung w r m) (ap (λ (x : Settings × Option Ringing). x.1) rings)
              g))
        (λ no. absurd (ground (arith, no, f, answers-rung w r m)))

  pub ring_once-rings_on :
      (w : World C S) (r : Option Ringing) (m : Modem L S)
      → is_some r ≡ true
      → answers m ≡ false
      → length m.settings.registers ≡ 256
      → (is_some (ring_once ops w r m).ringing ≡ true)
        × (auto_answer_rings (ring_once ops w r m).settings ≡ auto_answer_rings m.settings)
        × (register (ring_once ops w r m).settings 1 ≡ rings_after m)
  ring_once-rings_on w none m e f len = ground (arith, e)
  ring_once-rings_on w (some r) m e f len =
      if_cases
        (λ x.
          (is_some x.ringing ≡ true)
          × (auto_answer_rings x.settings ≡ auto_answer_rings m.settings)
          × (register x.settings 1 ≡ rings_after m))
        (answers_now (auto_answer_rings (rung w r m).settings) (rings_after m)) _ (rung w r m)
        (λ yes. ground (arith, yes, f, answers-rung w r m))
        (λ _. (
          ap (λ (x : Settings × Option Ringing). is_some x.1) (rung-rings_of w r m),
          auto_answer_rings-rung w r m,
          register-rung w r m len,
        ))
