-- ===== src/Modem/Session/Calls.antt =====
-- softmodem/src/modem.rs: calls that come in, ring, are answered and are dialled. `on_call` and the journal
-- that it may give have no part in the modem's state.
use softmodem_rs.Prelude.{
  ℕ, ◌+◌, min, Bool, true, false, not, ◌&&◌, ◌||◌, if◌then◌else◌, Option, none, some, List, ◌==◌,
  leb, set,
}
use softmodem_rs.Lapm.State.{Role}
use softmodem_rs.Lapm.State
use softmodem_rs.Terminal.Escape
use softmodem_rs.Terminal.Command.{Dial}
use softmodem_rs.Terminal.Settings.{register, auto_answer_rings, carrier_wait, comma_pause}
use softmodem_rs.Terminal.Settings.Report.{no_carrier, error, ring, ok, busy, connect_code}
use softmodem_rs.Modem.{header}
use softmodem_rs.Modem.Session.{
  Modem, LineOps, World, Ringing, Outcome, dialled, is_busy, failed, given_up, handshake,
  online_command, data_mode, act, set_ring, rejected, report, is_empty, ring_interval, ring_on,
}

-- `Incoming` of softmodem-transport/src/lib.rs.
pub data Incoming : Type 0 where
  ringing : ℕ → Incoming
  gone : ℕ → Incoming

abbrev pub is_some : {A : Type 0} → Option A → Bool
is_some none = false
is_some (some a) = true

abbrev pub rate_or_0 : Option ℕ → ℕ
rate_or_0 none = 0
rate_or_0 (some rate) = rate

abbrev pub is_caller : Option Ringing → ℕ → Bool
is_caller none caller = false
is_caller (some r) caller = r.caller == caller

-- The digits to send in band after the answer.
abbrev pub digits_after : Bool → List ℕ → ℕ → Option (List ℕ × ℕ)
digits_after keys digits pause =
    if not keys && not (is_empty digits) then some (digits, pause) else none

abbrev pub number_of : Dial → Option (List ℕ × List ℕ) → Option (List ℕ × List ℕ)
number_of d last = if d.redial then last else some (d.number, d.after_answer)

abbrev pub answers_now : ℕ → ℕ → Bool
answers_now auto rings = not (auto == 0) && leb auto rings

module _ {L C S : Type 0} where
  unfoldable pub attach :
      LineOps L C S → C → Option Role → ℕ → Option (List ℕ × ℕ) → Modem L S → Modem L S
  attach ops call role deadline digits m = record m {
    line = some (ops.new_line call (header m.settings role) digits);
    mode = handshake deadline;
    carrier_lost_at = none;
  }

module _ {L S : Type 0} where
  abbrev pub lower_ring : Option ℕ → Modem L S → Modem L S
  lower_ring none m = m
  lower_ring (some at) m = act (set_ring false) (record m { ring_off = none })

  unfoldable pub stop_ringing : Modem L S → Modem L S
  stop_ringing m = lower_ring m.ring_off m

  -- `self.settings.registers[1] = n`
  abbrev pub count_rings : ℕ → Modem L S → Modem L S
  count_rings n m = record m {
    settings = record m.settings { registers = set m.settings.registers 1 n };
  }

module _ {L C S : Type 0} where
  abbrev pub take_call : LineOps L C S → World C S → Option C → Modem L S → Modem L S
  take_call ops w none m = report no_carrier m
  take_call ops w (some call) m =
      attach ops call (some State.answer) (w.now + carrier_wait m.settings) none m

  abbrev pub answer_ringing : LineOps L C S → World C S → Option Ringing → Modem L S → Modem L S
  answer_ringing ops w none m = report no_carrier m
  answer_ringing ops w (some r) m =
      take_call ops w w.answered (count_rings 0 (record m { ringing = none }))

  unfoldable pub answer : LineOps L C S → World C S → Modem L S → Modem L S
  unfolding stop_ringing attach report
  answer ops w m = answer_ringing ops w m.ringing (stop_ringing m)

module _ {L S : Type 0} where
  -- `ringing.take`, and `reject` of the caller.
  abbrev pub reject_ringing : Option Ringing → Modem L S → Modem L S
  reject_ringing none m = m
  reject_ringing (some r) m = act (rejected r.caller) (record m { ringing = none })

module _ {L C S : Type 0} where
  abbrev pub place :
      LineOps L C S → World C S → Dial → List ℕ → ℕ → Outcome C → Modem L S → Modem L S
  place ops w d after_answer deadline is_busy m = report busy m
  place ops w d after_answer deadline failed m = report no_carrier m
  place ops w d after_answer deadline given_up m = report no_carrier m
  place ops w d after_answer deadline (dialled call) m =
      let role = if d.reverse then State.answer else State.originate in
      let digits = digits_after w.dials_after_answer after_answer (comma_pause m.settings) in
      if d.stay_in_command_mode
      then report ok (record (attach ops call none deadline digits m) { mode = online_command })
      else attach ops call (some role) deadline digits m

  abbrev pub dial_to :
      LineOps L C S → World C S → Dial → Option (List ℕ × List ℕ) → Modem L S → Modem L S
  dial_to ops w d none m = report no_carrier m
  dial_to ops w d (some (number, after_answer)) m =
      let m' : Modem L S =
        reject_ringing m.ringing (record m { last_number = some (number, after_answer) }) in
      if is_empty number
      then report no_carrier m
      else place ops w d after_answer (w.now + carrier_wait m.settings) w.outcome m'

  unfoldable pub dial : LineOps L C S → World C S → Dial → Modem L S → Modem L S
  unfolding attach report
  dial ops w d m =
      if is_some m.line then report error m else dial_to ops w d (number_of d m.last_number) m

  abbrev pub retrained : LineOps L C S → World C S → Bool → L → L
  retrained ops w retrain l = if retrain then ops.retrain l w.now else l

  abbrev pub go_online : LineOps L C S → World C S → Bool → Option L → Modem L S → Modem L S
  go_online ops w retrain none m = report no_carrier m
  go_online ops w retrain (some l) m =
      let l' = retrained ops w retrain l in
      if not (ops.has_handshake l)
      then record m {
        line = some (ops.start l State.originate w.now);
        mode = handshake (w.now + carrier_wait m.settings);
      }
      else report (connect_code (rate_or_0 (ops.bit_rate l')))
          (record m { line = some l'; mode = data_mode (Escape.new w.now) })

  unfoldable pub online : LineOps L C S → World C S → Bool → Modem L S → Modem L S
  unfolding report Escape.new
  online ops w retrain m = go_online ops w retrain m.line m

  unfoldable pub incoming : World C S → Incoming → Modem L S → Modem L S
  unfolding stop_ringing
  incoming w (ringing caller) m =
      if m.off_hook || is_some m.line || is_some m.ringing
      then act (rejected caller) m
      else record (count_rings 0 m) {
        ringing = some (record { caller = caller; next_ring = w.now });
      }
  incoming w (gone caller) m =
      if is_caller m.ringing caller
      then count_rings 0 (record (stop_ringing m) { ringing = none })
      else m

module _ {L S : Type 0} where
  -- `saturating_add` of a byte.
  abbrev pub rings_after : Modem L S → ℕ
  rings_after m = min 255 (register m.settings 1 + 1)

module _ {L C S : Type 0} where
  -- A ring, before the modem answers it by itself.
  abbrev pub rung : World C S → Ringing → Modem L S → Modem L S
  rung w r m = report ring (
      act (set_ring true) (record (count_rings (rings_after m) m) {
        ringing = some (record r { next_ring = r.next_ring + ring_interval });
        ring_off = some (w.now + ring_on);
      }))

  abbrev pub ring_once : LineOps L C S → World C S → Option Ringing → Modem L S → Modem L S
  ring_once ops w none m = m
  ring_once ops w (some r) m =
      let m' = rung w r m in
      if answers_now (auto_answer_rings m'.settings) (rings_after m) then answer ops w m' else m'

  unfoldable pub ring_now : LineOps L C S → World C S → Modem L S → Modem L S
  unfolding answer report
  ring_now ops w m = ring_once ops w m.ringing m
