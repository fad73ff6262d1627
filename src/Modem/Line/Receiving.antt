-- ===== src/Modem/Line/Receiving.antt =====
-- `Handshake::receive` and `Handshake::recover` of softmodem/src/line.rs.
use softmodem_rs.Prelude.{
  ℕ, Bool, true, false, not, ◌&&◌, ◌||◌, if◌then◌else◌, Option, none, some, List,
}
use softmodem_rs.Link.State.{Setup, Link, Status, Phase, status, with_round_trip}
use softmodem_rs.Link.State
use softmodem_rs.Link.Send
use softmodem_rs.Link.Receive
use softmodem_rs.Modem.Line.Recovering.{Action, poll}
use softmodem_rs.Modem.Session.{Received}
use softmodem_rs.Modem.Line.{
  Signals, Handshake, is_originate, is_reliable, carries, compression_of, nothing, is_empty,
  link_or_new,
}

module _ {P T D G S : Type 0} (s : Signals P T D G S) where
  abbrev pub acted : Option Action → P → P
  acted none p = p
  acted (some Action.renegotiate) p = s.renegotiate p
  acted (some Action.retrain) p = s.retrain p

  abbrev pub recover_on : ℕ → Bool → Option Link → Handshake P T D → Handshake P T D
  recover_on now connected none h = h
  recover_on now connected (some l) h =
      let (r, action) = poll h.recovery now (connected && is_reliable (status l)) l.sound_at in
      record h { recovery = r; pump = acted action h.pump }

  unfoldable pub recover : ℕ → Bool → Handshake P T D → Handshake P T D
  unfolding status poll
  recover now connected h = recover_on now connected h.link h

  -- The link hears the bits.
  abbrev pub hear : ℕ → List Bool → Handshake P T D → Handshake P T D
  hear now bits h =
      let l = link_or_new s h.link h in
      let started =
        if s.connected h.pump then State.start s.two_frames l (s.bit_rate h.pump) now else l in
      let heard = Receive.receive started bits now in
      let l' = if s.carrier h.pump then heard else Send.carrier_lost heard in
      if not (is_empty bits) || s.connected h.pump then record h { link = some l' } else h

  -- The end of `receive`, from the link.
  abbrev pub deliver : Option Link → Handshake P T D → Handshake P T D × Received
  deliver none h = (h, nothing)
  deliver (some l) h =
      let (l', bytes) = Send.take_received l in
      if h.connected
      then (record h { link = some l' }, record nothing { bytes = bytes })
      else if carries (status l)
      then (
        record h { link = some l'; connected = true },
        record {
          bytes = bytes;
          connected = true;
          reliable = is_reliable (status l);
          compression = compression_of l.phase;
        },
      )
      else (h, nothing)

  abbrev pub received_by : ℕ → P × List Bool → Handshake P T D → Handshake P T D × Received
  received_by now (p, bits) h =
      let pumped : Handshake P T D = record h {
        pump = p;
        rate = if s.connected p then s.bit_rate p else h.rate;
      } in
      let heard = hear now bits pumped in
      let after : Handshake P T D =
        recover now (s.connected p)
          (record heard { heard_carrier = heard.heard_carrier || s.carrier p }) in
      deliver after.link after

  -- The answer tone, listened for, starts the pump anew.
  abbrev pub listen : ℕ → S → D × Bool → Handshake P T D → Handshake P T D × Received
  listen now samples (d, true) h =
      (record h { answer_tone_detector = d; pump = s.pump h.offer h.role }, nothing)
  listen now samples (d, false) h =
      received_by now (s.receive h.pump samples) (record h { answer_tone_detector = d })

  unfoldable pub receive_handshake : ℕ → S → Handshake P T D → Handshake P T D × Received
  unfolding State.new State.start Receive.receive Send.carrier_lost Send.take_received recover
      status
  receive_handshake now samples h =
      if is_originate h.role && not h.heard_carrier && not (s.sends_own_answer_tone h.pump)
      then listen now samples (s.process h.answer_tone_detector samples) h
      else received_by now (s.receive h.pump samples) h
