-- ===== src/Tests/Modem.antt =====
-- The modem of modem.rs at concrete inputs.
use softmodem_rs.Prelude.{
  ◌≡◌, refl, List, [], ◌∷◌, ◌++◌, ◌+◌, ◌*◌, ◌/◌, ◌≤◌, ◌<◌, ℕ, true, false, none, some, arith,
  length, set,
}
use softmodem_rs.Prelude.Result.{ok}
use softmodem_rs.Lapm.State.{answer, originate}
use softmodem_rs.Uart
use softmodem_rs.Modem.Line.{Signals, CallLine, Handshake, new_handshake}
use softmodem_rs.Modem.Line.Interface.{line_ops}
use softmodem_rs.Modem.Line.Connecting.{orderly, receive_all, receive_all-orderly}
use softmodem_rs.Modem.Line.Recovering.{renegotiate, retrain, Polled, poll_all}
use softmodem_rs.Modem.Line.Recovering.Silence.{IsPolled, IsWithin, IsDue, poll_all-recovers}
use softmodem_rs.Modem.Line.Recovering
use softmodem_rs.Terminal.Command.Parser.{◌>>=◌, give, next, take_while, span, number_from, number}
use softmodem_rs.Terminal.Command.Parse.{normal, commands_from, command, register, parse}
use softmodem_rs.Terminal.Settings.{Settings, default, apply, auto_answer_rings}
use softmodem_rs.Terminal.Settings
use softmodem_rs.Modem.{header}
use softmodem_rs.Modem.Profile.{profile, apply_all, trim}
use softmodem_rs.Modem.Profile.Valid.{IsOffer, profile-IsSettings}
use softmodem_rs.Modem.Session.{Modem, LineOps, World, given_up, new, sync_dcd}
use softmodem_rs.Modem.Session.Calls.{is_some, ringing, incoming, ring_now}
use softmodem_rs.Modem.Session.Rings.{ring_all, ring_all-answers}
use softmodem_rs.Modem.Session.Rings.Taking.{Takes}
use softmodem_rs.Modem.Session.Run.{
  calls, rings, Reaches, starts, turns, Reaches-IsModem, Reaches-IsOffer,
}
use softmodem_rs.Modem.Session.Shape.{IsModem}

-- Signals that are numbers: a pump is its bit rate, is connected from the start, and hears one mark a frame.
abbrev signals : Signals ℕ ℕ ℕ ℕ ℕ
signals = record {
  pump = λ offer role. 300;
  receive = λ p samples. (p, true ∷ []);
  transmit = λ p. (p, 1);
  push_bits = λ p bits. p;
  pending = λ p. 0;
  bit_rate = λ p. p;
  transmit_rate = λ p. p;
  carrier = λ p. true;
  connected = λ p. true;
  cleared = λ p. false;
  sends_own_answer_tone = λ p. true;
  decoder = λ p. Uart.new;
  round_trip = λ p. none;
  retrain = λ p. p;
  renegotiate = λ p. p;
  clear_down = λ p. p;
  tone = 0;
  render = λ t. (t, 2);
  detector = 0;
  process = λ d samples. (d, false);
  digits = λ ds pause. 0;
  render_digits = λ g. (g, 3);
  digits_done = λ g. true;
  silence = 0;
  frame_samples = 160;
  ahead = λ rate. rate * 6 / 100;
  two_frames = λ rate. 0;
}

abbrev ops : LineOps (CallLine ℕ ℕ ℕ ℕ) ℕ ℕ
ops = line_ops signals

abbrev world : World ℕ ℕ
world = record {
  now = 1000;
  answered = some 9;
  outcome = given_up;
  dials_after_answer = false;
  clearing = [];
}

-- `ATS0=2`
abbrev init : List ℕ
init = b'A' ∷ b'T' ∷ b'S' ∷ b'0' ∷ b'=' ∷ b'2' ∷ []

abbrev stored : Settings
stored = record default { registers = set (default.registers) 0 2 }

accepted : profile init ≡ ok stored
unfolding profile trim apply_all apply default parse normal commands_from command register number
    take_while span number_from ◌>>=◌ give next
accepted = refl

-- A call comes in.
abbrev called : Modem (CallLine ℕ ℕ ℕ ℕ) ℕ
called = incoming world (ringing 7) (sync_dcd ops (new stored))

-- It rings once.
abbrev rung_once : Modem (CallLine ℕ ℕ ℕ ℕ) ℕ
rung_once = ring_now ops world called

reached : Reaches [] ops stored rung_once
unfolding new sync_dcd incoming default
reached = turns (turns starts (calls _ world (ringing 7) refl)) (rings _ world refl)

Reaches-IsModem_example : IsModem rung_once
Reaches-IsModem_example =
    Reaches-IsModem [] ops stored rung_once (profile-IsSettings init stored accepted) reached

Reaches-IsOffer_example :
    IsOffer (header rung_once.settings (some answer)).setups.originate.compression
    × IsOffer (header rung_once.settings (some answer)).setups.answer.compression
Reaches-IsOffer_example =
    Reaches-IsOffer [] ops init stored rung_once (some answer) accepted reached

called-IsModem : IsModem called
unfolding new sync_dcd incoming default
called-IsModem =
    Reaches-IsModem [] ops stored called (profile-IsSettings init stored accepted)
      (turns starts (calls _ world (ringing 7) refl))

-- Register 0 asks for two rings.
ring_all-answers_example :
    (is_some (ring_all ops (world ∷ []) called).ringing ≡ true)
    × (is_some (ring_all ops (world ∷ []) called).line ≡ false)
    × (Settings.register (ring_all ops (world ∷ []) called).settings 1
        ≡ Settings.register called.settings 1 + length (world ∷ []))
    × Takes ops world 9
        (ring_all ops (world ∷ []) called)
        (ring_now ops world (ring_all ops (world ∷ []) called))
unfolding new sync_dcd incoming default
ring_all-answers_example =
    ring_all-answers ops (world ∷ []) world 9 called called-IsModem refl refl refl

-- An originating handshake, and two frames at different times.
abbrev originating : Handshake ℕ ℕ ℕ
originating =
    new_handshake signals (header default (some originate)).offer
      (header default (some originate)).setups originate

abbrev heard_frames : List (ℕ × ℕ)
heard_frames = (1000, 5) ∷ (2000, 6) ∷ []

receive_all-orderly_example :
    orderly originating.connected (receive_all signals heard_frames originating).1 ≡ true
receive_all-orderly_example = receive_all-orderly signals heard_frames originating

-- A poll in data mode with no sound since the start.
abbrev polled : ℕ → Polled
polled now = record { now = now; in_data = true; sound = some 0 }

polled-IsPolled : (now : ℕ) → IsPolled 0 (polled now)
polled-IsPolled now = record { later = omega arith; silent = omega arith }

polled-IsWithin : (from now : ℕ) → now < from + 2_000_000_000 → IsWithin 0 from (polled now)
polled-IsWithin from now h = record {
  polled = polled-IsPolled now;
  in_data = refl;
  soon = omega arith;
}

polled-IsDue : (from now : ℕ) → from + 2_000_000_000 ≤ now → IsDue 0 from (polled now)
polled-IsDue from now h = record { polled = polled-IsPolled now; in_data = refl; due = omega arith }

-- Polls at 1, 2, 3, 4, 5 and 6 seconds.
poll_all-recovers_example :
    let first = polled 1_000_000_000 ∷ polled 2_000_000_000 ∷ [] in
    let second = polled 3_000_000_000 ∷ polled 4_000_000_000 ∷ [] in
    let third = polled 5_000_000_000 ∷ polled 6_000_000_000 ∷ [] in
    ((poll_all first Recovering.new).1 ≡ [])
    × ((poll_all (first ++ second) Recovering.new).1 ≡ renegotiate ∷ [])
    × ((poll_all (first ++ (second ++ third)) Recovering.new).1 ≡ renegotiate ∷ retrain ∷ [])
poll_all-recovers_example =
    poll_all-recovers 0 (polled 1_000_000_000) (polled 3_000_000_000) (polled 5_000_000_000)
      (polled 2_000_000_000 ∷ []) (polled 4_000_000_000 ∷ []) (polled 6_000_000_000 ∷ [])
      (
        polled-IsWithin 1_000_000_000 1_000_000_000 (omega arith),
        (polled-IsWithin 1_000_000_000 2_000_000_000 (omega arith), tt),
      )
      (polled-IsDue 1_000_000_000 3_000_000_000 (omega arith))
      (polled-IsWithin 3_000_000_000 4_000_000_000 (omega arith), tt)
      (polled-IsDue 3_000_000_000 5_000_000_000 (omega arith)) (polled-IsPolled 6_000_000_000, tt)
