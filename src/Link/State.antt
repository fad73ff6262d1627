-- ===== src/Link/State.antt =====
-- softmodem-link/src/lib.rs: the state of a V.42 link, its start, its status and its time-outs. Instants
-- and durations are numbers of nanoseconds. The time that two long frames take at a bit rate, which
-- the source computes in floating point, is the argument `two_frames` of `start`.
use softmodem_rs.Prelude.{
  ℕ, zero, suc, ◌+◌, Bool, true, false, not, Option, none, some, List, [], ◌++◌, ltb, leb,
  if◌then◌else◌,
}
use softmodem_rs.Lapm.State.{Role, originate, answer, Lapm, originator, answerer, is_originate}
use softmodem_rs.Lapm.State
use softmodem_rs.Detect.{Heard}
use softmodem_rs.Uart
use softmodem_rs.Hdlc
use softmodem_rs.V42bis.Negotiation.{Directions}
use softmodem_rs.V42bis.Encoder.{Encoder}
use softmodem_rs.V42bis.Decoder.{Decoder}

abbrev pub t400 : ℕ
t400 = 750_000_000

abbrev pub answerer_t400 : ℕ
answerer_t400 = 1_500_000_000

abbrev pub second : ℕ
second = 1_000_000_000

abbrev pub adp_repeats : ℕ
adp_repeats = 10

abbrev pub opening_flags : ℕ
opening_flags = 16

abbrev pub enough_flags : ℕ
enough_flags = 3

abbrev pub sound_flags : ℕ
sound_flags = 8

abbrev pub lowest_rate : ℕ
lowest_rate = 1200

abbrev pub min_frame : ℕ
min_frame = 2

pub record CompressionSetup : Type 0 where
  pub offer : Directions
  pub required : Bool

pub record Setup : Type 0 where
  pub lapm : Bool
  pub detection : Bool
  pub required : Bool
  pub compression : Option CompressionSetup

abbrev pub setup_normal : Setup
setup_normal = record { lapm = false; detection = false; required = false; compression = none }

abbrev pub offer_of : Option CompressionSetup → Option Directions
offer_of none = none
offer_of (some c) = some c.offer

abbrev pub offer : Setup → Option Directions
offer s = offer_of s.compression

pub data Status : Type 0 where
  starting : Status
  reliable : Status
  normal : Status
  released : Status

pub data Phase : Type 0 where
  idle : Phase
  originating : ℕ → Phase
  listening : ℕ → Phase
  protocol : Lapm → Phase
  normal : Phase
  released : Phase

pub record Codec : Type 0 where
  pub encoder : Option Encoder
  pub decoder : Option Decoder

pub record Link : Type 0 where
  pub role : Role
  pub setup : Setup
  pub phase : Phase
  pub t401 : ℕ
  pub decoder : Uart.Decoder
  pub heard : Heard
  pub deframer : Hdlc.Deframer
  pub tx : List Bool
  pub held : List ℕ
  pub received : List ℕ
  pub adps : ℕ
  pub flags_heard : Bool
  pub round_trip : ℕ
  pub sound_at : Option ℕ
  pub codec : Option Codec

unfoldable pub new : Role → Setup → Uart.Decoder → Link
new role setup decoder = record {
  role = role;
  setup = setup;
  phase = Phase.idle;
  t401 = 0;
  decoder = decoder;
  heard = record { last = [] };
  deframer = Hdlc.new min_frame;
  tx = [];
  held = [];
  received = [];
  adps = 0;
  flags_heard = false;
  round_trip = 0;
  sound_at = none;
  codec = none;
}

abbrev pub with_round_trip : Link → ℕ → Link
with_round_trip l round_trip = record l { round_trip = round_trip }

abbrev pub push_flags : ℕ → List Bool → List Bool
push_flags zero tx = tx
push_flags (suc n) tx = push_flags n (Hdlc.push_flag tx)

-- `self.phase = self.protocol(lapm)`
unfoldable pub enter_protocol : Link → Lapm → Link
enter_protocol l m = record l {
  held = [];
  tx = if is_originate l.role then push_flags opening_flags l.tx else l.tx;
  phase = Phase.protocol m;
}

-- `self.phase = self.fall_back()`
unfoldable pub fall_back : Link → Link
fall_back l =
    if l.setup.required
    then record l { phase = Phase.released }
    else record l { received = l.received ++ l.held; held = []; phase = Phase.normal }

abbrev pub is_idle : Phase → Bool
is_idle Phase.idle = true
is_idle _ = false

-- The match of `start`, with the setup and T401 that the rate gives.
unfoldable pub start_by : Link → Role → ℕ → Link
unfolding enter_protocol fall_back
start_by l originate now =
    if not l.setup.lapm
    then fall_back l
    else if l.setup.detection
    then record l { phase = Phase.originating (now + t400 + l.round_trip) }
    else enter_protocol l (originator l.t401 (offer l.setup))
start_by l answer now =
    if not l.setup.lapm
    then fall_back l
    else record l { phase = Phase.listening (now + answerer_t400) }

unfoldable pub start : (ℕ → ℕ) → Link → ℕ → ℕ → Link
unfolding start_by
start two_frames l bit_rate now =
    let setup = if ltb bit_rate lowest_rate then record l.setup { lapm = false } else l.setup in
    let l' : Link = record l { setup = setup; t401 = second + two_frames bit_rate } in
    if is_idle l.phase then start_by l' l.role now else l

abbrev pub status_of : State.Status → Status
status_of State.Status.establishing = Status.starting
status_of State.Status.connected = Status.reliable
status_of State.Status.released = Status.released

unfoldable pub status : Link → Status
unfolding State.status
status l = elim l.phase [
  | Phase.idle ↦ Status.starting
  | Phase.originating _ ↦ Status.starting
  | Phase.listening _ ↦ Status.starting
  | Phase.protocol m ↦ status_of (State.status m)
  | Phase.normal ↦ Status.normal
  | Phase.released ↦ Status.released
]

abbrev pub has_status : State.Status → State.Status → Bool
has_status State.Status.connected State.Status.connected = true
has_status State.Status.released State.Status.released = true
has_status State.Status.establishing State.Status.establishing = true
has_status _ _ = false

-- `expire` on the phase.
unfoldable pub expire_by : Link → Phase → ℕ → Link
unfolding fall_back State.status
expire_by l (Phase.originating deadline) now = if leb deadline now then fall_back l else l
expire_by l (Phase.listening deadline) now = if leb deadline now then fall_back l else l
expire_by l (Phase.protocol m) now =
    if has_status (State.status m) State.Status.released
    then record l { phase = Phase.released }
    else l
expire_by l Phase.idle now = l
expire_by l Phase.normal now = l
expire_by l Phase.released now = l

unfoldable pub expire : Link → ℕ → Link
unfolding expire_by
expire l now = expire_by l l.phase now
