-- ===== src/Modem/Session.antt =====
-- softmodem/src/modem.rs: the state of the modem, and how it writes to the computer and hangs up. Instants
-- and durations are in milliseconds; a handler reads the clock once. What the modem does to the port
-- and to the transport is the list `acts`, the latest last. A caller is a number that tells it from the others.
pub mod Calls
pub mod Computer
pub mod Signals
pub mod Run
pub mod Rings
pub mod Shape
use softmodem_rs.Prelude.{
  ℕ, Bool, true, false, not, ◌&&◌, ◌||◌, if◌then◌else◌, Option, none, some, List, [], ◌∷◌, ◌++◌,
}
use softmodem_rs.Lapm.State.{Role}
use softmodem_rs.V42bis.Negotiation.{Directions}
use softmodem_rs.Terminal.Line.{LineEditor}
use softmodem_rs.Terminal.Line
use softmodem_rs.Terminal.Escape.{EscapeDetector}
use softmodem_rs.Terminal.Settings.{Settings, always_on, follows_carrier, Dcd}
use softmodem_rs.Terminal.Settings.Report.{ResultCode}
use softmodem_rs.Terminal.Settings.Report
use softmodem_rs.Modem.{Header}

abbrev pub ring_interval : ℕ
ring_interval = 6000

abbrev pub ring_on : ℕ
ring_on = 2000

-- `Received` of line.rs.
pub record Received : Type 0 where
  pub bytes : List ℕ
  pub connected : Bool
  pub reliable : Bool
  pub compression : Option Directions

-- What the modem asks of a line of line.rs: `L` is a line, `C` a call and `S` a frame of samples.
-- `new_line` takes the digits after the answer with the pause of a comma.
pub record LineOps (L C S : Type 0) : Type 0 where
  pub new_line : C → Header → Option (List ℕ × ℕ) → L
  pub start : L → Role → ℕ → L
  pub retrain : L → ℕ → L
  pub clear_down : L → ℕ → L × Bool
  pub cleared : L → Bool
  pub released : L → Bool
  pub carrier : L → Bool
  pub has_handshake : L → Bool
  pub bit_rate : L → Option ℕ
  pub transmit_rate : L → Option ℕ
  pub send : L → List ℕ → ℕ → L
  pub transmit : L → ℕ → L × S
  pub dropped : L → ℕ → L
  pub receive : L → S → ℕ → L × Received

pub data Mode : Type 0 where
  command : Mode
  handshake : ℕ → Mode
  data_mode : EscapeDetector → Mode
  online_command : Mode

pub record Ringing : Type 0 where
  pub caller : ℕ
  pub next_ring : ℕ

pub record Connection : Type 0 where
  pub since : ℕ
  pub receive_rate : ℕ
  pub transmit_rate : ℕ
  pub error_control : Bool
  pub compression : Bool
  pub retransmissions : ℕ

pub data Act (S : Type 0) : Type 0 where
  wrote : List ℕ → Act S
  set_ring : Bool → Act S
  set_carrier : Bool → Act S
  rejected : ℕ → Act S
  sounded : S → Act S
  hung_up : Act S

pub record Modem (L S : Type 0) : Type 0 where
  pub profile : Settings
  pub settings : Settings
  pub editor : LineEditor
  pub last_number : Option (List ℕ × List ℕ)
  pub off_hook : Bool
  pub ringing : Option Ringing
  pub line : Option L
  pub mode : Mode
  pub carrier_lost_at : Option ℕ
  pub dcd : Bool
  pub ring_off : Option ℕ
  pub connection : Option Connection
  pub received : ℕ
  pub sent : ℕ
  pub acts : List (Act S)

unfoldable pub new : {L S : Type 0} → Settings → Modem L S
unfolding Line.new
new profile = record {
  profile = profile;
  settings = profile;
  editor = Line.new;
  last_number = none;
  off_hook = false;
  ringing = none;
  line = none;
  mode = command;
  carrier_lost_at = none;
  dcd = false;
  ring_off = none;
  connection = none;
  received = 0;
  sent = 0;
  acts = [];
}

-- What happens while the modem waits for a cleardown: a tick, at which the frame is sent or not, or
-- samples, or the end of the call.
pub data Clearing (S : Type 0) : Type 0 where
  ticked : ℕ → Bool → Clearing S
  heard : ℕ → Option S → Clearing S

pub data Outcome (C : Type 0) : Type 0 where
  dialled : C → Outcome C
  is_busy : Outcome C
  failed : Outcome C
  given_up : Outcome C

-- What a handler finds: the time, what the transport answers, whether it dials after an answer
-- itself, and what happens up to the end of the wait for a cleardown.
pub record World (C S : Type 0) : Type 0 where
  pub now : ℕ
  pub answered : Option C
  pub outcome : Outcome C
  pub dials_after_answer : Bool
  pub clearing : List (Clearing S)

abbrev pub is_empty : List ℕ → Bool
is_empty [] = true
is_empty (x ∷ xs) = false

abbrev pub is_connected : Mode → Bool
is_connected command = false
is_connected (handshake deadline) = false
is_connected (data_mode escape) = true
is_connected online_command = true

module _ {L S : Type 0} where
  abbrev pub act : Act S → Modem L S → Modem L S
  act a m = record m { acts = m.acts ++ a ∷ [] }

  abbrev pub write : List ℕ → Modem L S → Modem L S
  write bytes m = if is_empty bytes then m else act (wrote bytes) m

  unfoldable pub report : ResultCode → Modem L S → Modem L S
  report code m = write (Report.report m.settings code) m

module _ {L C S : Type 0} where
  abbrev pub handshaken : LineOps L C S → Option L → Bool
  handshaken ops none = false
  handshaken ops (some l) = ops.has_handshake l

  abbrev pub wanted_dcd : LineOps L C S → Modem L S → Bool
  wanted_dcd ops m = elim m.settings.dcd [
    | always_on ↦ true
    | follows_carrier ↦ handshaken ops m.line && is_connected m.mode
  ]

module _ {L S : Type 0} where
  abbrev pub with_dcd : Bool → Modem L S → Modem L S
  with_dcd dcd m =
      if dcd && m.dcd || not dcd && not m.dcd
      then m
      else act (set_carrier dcd) (record m { dcd = dcd })

module _ {L C S : Type 0} where
  unfoldable pub sync_dcd : LineOps L C S → Modem L S → Modem L S
  sync_dcd ops m = with_dcd (wanted_dcd ops m) m

module _ {L S : Type 0} where
  abbrev pub end_call : Option L → Modem L S → Modem L S
  end_call none m = m
  end_call (some l) m = act hung_up m

  unfoldable pub hang_up : Modem L S → Modem L S
  hang_up m = record (end_call m.line m) {
    line = none;
    mode = command;
    carrier_lost_at = none;
    connection = none;
  }

module _ {L C S : Type 0} where
  unfoldable pub hang_up_with : LineOps L C S → ResultCode → Modem L S → Modem L S
  unfolding hang_up report sync_dcd
  hang_up_with ops code m = sync_dcd ops (report code (hang_up m))

  -- The loop of `clear_down`, which ends at the latest with the events before the deadline.
  unfoldable pub await_cleared : LineOps L C S → List (Clearing S) → L → L
  await_cleared ops [] l = l
  await_cleared ops (ticked now true ∷ events) l =
      let rest = await_cleared ops events (ops.transmit l now).0 in
      if ops.cleared l then l else rest
  await_cleared ops (ticked now false ∷ events) l =
      if ops.cleared l then l else ops.dropped (ops.transmit l now).0 now
  await_cleared ops (heard now none ∷ events) l = l
  await_cleared ops (heard now (some samples) ∷ events) l =
      let rest = await_cleared ops events (ops.receive l samples now).0 in
      if ops.cleared l then l else rest

  abbrev pub cleared_down : LineOps L C S → List (Clearing S) → L × Bool → L
  cleared_down ops events (l, false) = l
  cleared_down ops events (l, true) = await_cleared ops events l

  abbrev pub clear_line : LineOps L C S → World C S → Option L → Option L
  clear_line ops w none = none
  clear_line ops w (some l) = some (cleared_down ops w.clearing (ops.clear_down l w.now))

  unfoldable pub clear_down : LineOps L C S → World C S → Modem L S → Modem L S
  unfolding await_cleared
  clear_down ops w m = record m { line = clear_line ops w m.line }

  unfoldable pub put_down : LineOps L C S → World C S → Modem L S → Modem L S
  unfolding clear_down hang_up
  put_down ops w m = hang_up (clear_down ops w m)
