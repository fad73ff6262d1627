-- ===== src/Modem/Line.antt =====
-- softmodem/src/line.rs: a call's line, which is the answer sequence, the data pump and over it the link. Instants
-- and durations are in nanoseconds. The signals are arguments, in the record Signals: the data pump of
-- softmodem-dsp/src/pump.rs, the tones and the digits, and what the source computes in floating point.
-- The journal and the names of the stages are left out, since they change nothing else.
pub mod Recovering
pub mod Receiving
pub mod Connecting
pub mod Interface
use softmodem_rs.Prelude.{
  ℕ, ◌+◌, ◌-◌, min, Bool, true, false, not, ◌&&◌, ◌||◌, if◌then◌else◌, Option, none, some, List, [],
  ◌∷◌, leb, ltb,
}
use softmodem_rs.Lapm.State.{Role, originate, answer}
use softmodem_rs.Uart
use softmodem_rs.V42bis.Negotiation.{Directions}
use softmodem_rs.Link.State.{Setup, Link, Status, Phase, status, with_round_trip}
use softmodem_rs.Link.State
use softmodem_rs.Link.Send
use softmodem_rs.Link.Receive
use softmodem_rs.Modem.{Offer, Setups, Header}
use softmodem_rs.Modem.Line.Recovering.{Recovery, Action, poll}
use softmodem_rs.Modem.Line.Recovering
use softmodem_rs.Modem.Session.{Received}

abbrev pub answer_silence : ℕ
answer_silence = 16_000

abbrev pub answer_tone : ℕ
answer_tone = 26_400

abbrev pub answer_gap : ℕ
answer_gap = 600

-- `P` is a data pump, `T` the answer tone, `D` its detector, `G` the digits and `S` a frame of samples.
pub record Signals (P T D G S : Type 0) : Type 0 where
  pub pump : Offer → Role → P
  pub receive : P → S → P × List Bool
  pub transmit : P → P × S
  pub push_bits : P → List Bool → P
  pub pending : P → ℕ
  pub bit_rate : P → ℕ
  pub transmit_rate : P → ℕ
  pub carrier : P → Bool
  pub connected : P → Bool
  pub cleared : P → Bool
  pub sends_own_answer_tone : P → Bool
  pub decoder : P → Uart.Decoder
  pub round_trip : P → Option ℕ
  pub retrain : P → P
  pub renegotiate : P → P
  pub clear_down : P → P
  pub tone : T
  pub render : T → T × S
  pub detector : D
  pub process : D → S → D × Bool
  pub digits : List ℕ → ℕ → G
  pub render_digits : G → G × S
  pub digits_done : G → Bool
  pub silence : S
  -- The samples of a frame, the bits that PUMP_AHEAD takes at a rate, and the time of two long frames.
  pub frame_samples : ℕ
  pub ahead : ℕ → ℕ
  pub two_frames : ℕ → ℕ

pub record Handshake (P T D : Type 0) : Type 0 where
  pub role : Role
  pub offer : Offer
  pub setup : Setup
  pub pump : P
  pub answer_tone : T
  pub answer_tone_detector : D
  pub link : Option Link
  pub sent : ℕ
  pub heard_carrier : Bool
  pub connected : Bool
  pub rate : ℕ
  pub recovery : Recovery

pub record CallLine (P T D G : Type 0) : Type 0 where
  pub offer : Offer
  pub setups : Setups
  pub handshake : Option (Handshake P T D)
  pub digits : Option (G × Option Role)

abbrev pub setup_for : Role → Setups → Setup
setup_for originate s = s.originate
setup_for answer s = s.answer

abbrev pub is_originate : Role → Bool
is_originate originate = true
is_originate answer = false

abbrev pub is_reliable : Status → Bool
is_reliable Status.reliable = true
is_reliable _ = false

-- `Status::Reliable | Status::Normal`
abbrev pub carries : Status → Bool
carries Status.reliable = true
carries Status.normal = true
carries _ = false

abbrev pub compression_of : Phase → Option Directions
compression_of (Phase.protocol m) = m.compression
compression_of _ = none

abbrev pub nothing : Received
nothing = record { bytes = []; connected = false; reliable = false; compression = none }

abbrev pub with_measured : Option ℕ → Link → Link
with_measured none l = l
with_measured (some t) l = with_round_trip l t

abbrev pub is_empty : List Bool → Bool
is_empty [] = true
is_empty (b ∷ bits) = false

module _ {P T D G S : Type 0} (s : Signals P T D G S) where
  unfoldable pub new_handshake : Offer → Setups → Role → Handshake P T D
  new_handshake offer setups role = record {
    role = role;
    offer = offer;
    setup = setup_for role setups;
    pump = s.pump offer role;
    answer_tone = s.tone;
    answer_tone_detector = s.detector;
    link = none;
    sent = 0;
    heard_carrier = false;
    connected = false;
    rate = 0;
    recovery = Recovering.new;
  }

  -- `Handshake::link`: the link, made if there is none.
  abbrev pub link_or_new : Option Link → Handshake P T D → Link
  link_or_new (some l) h = l
  link_or_new none h =
      with_measured (s.round_trip h.pump) (State.new h.role h.setup (s.decoder h.pump))

  abbrev pub top_up : ℕ → ℕ → ℕ → Handshake P T D → Handshake P T D
  top_up now target pending h =
      let slower = min (s.transmit_rate h.pump) (s.bit_rate h.pump) in
      let started = State.start s.two_frames (link_or_new h.link h) slower now in
      let (l, bits) = Send.transmit started (target - pending) now in
      record h { link = some l; pump = s.push_bits h.pump bits }

  unfoldable pub fill : ℕ → Handshake P T D → Handshake P T D
  unfolding State.new State.start Send.transmit
  fill now h =
      let target = s.ahead (s.transmit_rate h.pump) in
      let pending = s.pending h.pump in
      if not (s.connected h.pump) || leb target pending then h else top_up now target pending h

  abbrev pub send_pump : Handshake P T D → Handshake P T D × S
  send_pump h = let (p, samples) = s.transmit h.pump in (record h { pump = p }, samples)

  abbrev pub send_tone : Handshake P T D → Handshake P T D × S
  send_tone h = let (t, samples) = s.render h.answer_tone in (record h { answer_tone = t }, samples)

  abbrev pub counted : Handshake P T D × S → Handshake P T D × S
  counted (h, samples) = (record h { sent = h.sent + s.frame_samples }, samples)

  unfoldable pub transmit_handshake : Handshake P T D → Handshake P T D × S
  transmit_handshake h = counted (
      if s.sends_own_answer_tone h.pump || is_originate h.role
      then send_pump h
      else if ltb h.sent answer_silence
      then (h, s.silence)
      else if ltb h.sent (answer_silence + answer_tone)
      then send_tone h
      else if ltb h.sent (answer_silence + answer_tone + answer_gap)
      then (h, s.silence)
      else send_pump h)
