-- ===== src/Lapm/State.antt =====
-- The state of lapm.rs, its construction, the timers and the operations that both directions
-- share. An `Instant` or a `Duration` is a number of ticks.
use softmodem_rs.Prelude.{
  ℕ, ◌+◌, ◌-◌, ◌*◌, ◌%◌, Bool, true, false, not, Option, none, some, List, [], ◌∷◌, ◌++◌, leb,
  if◌then◌else◌,
}
use softmodem_rs.Frame.{
  Frame, Unnumbered, Supervisory, s_format, u_format, new, with_info, xid, sabme,
}
use softmodem_rs.Xid
use softmodem_rs.Xid.{Xid}
use softmodem_rs.V42bis.Negotiation.{Directions, proposal}
use mathlib.Core.Option

abbrev pub default_n401 : ℕ
default_n401 = 128

abbrev pub default_k : ℕ
default_k = 15

abbrev pub max_n401 : ℕ
max_n401 = 2048

abbrev pub max_k : ℕ
max_k = 127

abbrev pub modulus : ℕ
modulus = 128

abbrev pub n400 : ℕ
n400 = 10

-- `Role` of softmodem-dsp/src/pump.rs.
pub data Role : Type 0 where
  originate answer : Role

pub data Status : Type 0 where
  establishing connected released : Status

pub data State : Type 0 where
  waiting : ℕ → State
  negotiating establishing connected released : State

pub record Conditions : Type 0 where
  pub peer_busy : Bool
  pub reject : Bool
  pub recovery : Bool

pub record Owed : Type 0 where
  pub reject : Option Bool
  pub final_rr : Bool
  pub poll : Bool
  pub ack : Bool

abbrev pub no_conditions : Conditions
no_conditions = record { peer_busy = false; reject = false; recovery = false }

abbrev pub nothing_owed : Owed
nothing_owed = record { reject = none; final_rr = false; poll = false; ack = false }

pub record Lapm : Type 0 where
  pub role : Role
  pub state : State
  pub t401 : ℕ
  pub timer : Option ℕ
  pub retries : ℕ
  pub n401_tx : ℕ
  pub k_tx : ℕ
  pub vs : ℕ
  pub va : ℕ
  pub vr : ℕ
  pub rb : Bool
  pub sent : List (List ℕ)
  pub resent : ℕ
  pub queue : List ℕ
  pub received : List ℕ
  pub conditions : Conditions
  pub urgent : List (Frame × Bool)
  pub owed : Owed
  pub offer : Option Directions
  pub compression : Option Directions

abbrev pub is_originate : Role → Bool
is_originate originate = true
is_originate answer = false

abbrev pub is_connected : State → Bool
is_connected connected = true
is_connected _ = false

abbrev pub is_establishing : State → Bool
is_establishing establishing = true
is_establishing _ = false

abbrev pub is_released : State → Bool
is_released released = true
is_released _ = false

-- `a == b` on `bool`.
abbrev pub same : Bool → Bool → Bool
same true b = b
same false b = not b

unfoldable pub status : Lapm → Status
status l = elim l.state [
  | waiting _ ↦ Status.establishing
  | negotiating ↦ Status.establishing
  | establishing ↦ Status.establishing
  | connected ↦ Status.connected
  | released ↦ Status.released
]

unfoldable pub fresh : Role → State → ℕ → Option Directions → Lapm
fresh role state t401 offer = record {
  role = role;
  state = state;
  t401 = t401;
  timer = none;
  retries = 0;
  n401_tx = default_n401;
  k_tx = default_k;
  vs = 0;
  va = 0;
  vr = 0;
  rb = false;
  sent = [];
  resent = 0;
  queue = [];
  received = [];
  conditions = no_conditions;
  urgent = [];
  owed = nothing_owed;
  offer = offer;
  compression = none;
}

-- The C/R bit of this end's commands and responses.
abbrev pub cr : Lapm → Bool → Bool
cr l command = same command (is_originate l.role)

unfoldable pub unnumbered_frame : Lapm → Bool → Unnumbered → Bool → Frame
unfolding new
unnumbered_frame l command kind pf = new (cr l command) (u_format kind pf)

unfoldable pub supervisory : Lapm → Bool → Supervisory → Bool → Frame
unfolding new
supervisory l command kind pf = new (cr l command) (s_format kind l.vr pf)

abbrev push_urgent : Lapm → Frame → Bool → Lapm
push_urgent l frame timed = record l { urgent = l.urgent ++ (frame, timed) ∷ [] }

abbrev xid_proposal : Option Directions → Xid
xid_proposal offer = record Xid.default {
  n401_tx = some default_n401;
  n401_rx = some default_n401;
  k_tx = some default_k;
  k_rx = some default_k;
  compression = Option.map proposal offer;
}

unfoldable pub send_xid_command : Lapm → Lapm
unfolding with_info unnumbered_frame
send_xid_command l =
    push_urgent l (with_info (unnumbered_frame l true xid false) (Xid.bytes (xid_proposal l.offer)))
      true

unfoldable pub send_sabme : Lapm → Lapm
unfolding unnumbered_frame
send_sabme l = push_urgent l (unnumbered_frame l true sabme true) true

unfoldable pub respond : Lapm → Unnumbered → Bool → List ℕ → Lapm
unfolding with_info unnumbered_frame
respond l kind pf info = push_urgent l (with_info (unnumbered_frame l false kind pf) info) false

unfoldable pub originator : ℕ → Option Directions → Lapm
unfolding send_xid_command fresh
originator t401 offer = send_xid_command (fresh originate negotiating t401 offer)

unfoldable pub answerer : ℕ → ℕ → Option Directions → Lapm
unfolding fresh
answerer t401 now offer = fresh answer (waiting (now + t401 * n400)) t401 offer

unfoldable pub connect : Lapm → Lapm
connect l = record l {
  state = connected;
  timer = none;
  retries = 0;
  vs = 0;
  va = 0;
  vr = 0;
  sent = [];
  conditions = no_conditions;
}

unfoldable pub release : Lapm → Lapm
release l = record l { state = released; timer = none; queue = []; sent = [] }

-- `send` queues data from the DTE.
unfoldable pub send : Lapm → List ℕ → Lapm
send l bytes = if is_released l.state then l else record l { queue = l.queue ++ bytes }

unfoldable pub take_received : Lapm → Lapm × List ℕ
take_received l = (record l { received = [] }, l.received)

abbrev pub due : Option ℕ → ℕ → Bool
due none now = false
due (some t) now = leb t now

-- The match on the state of an end whose T401 has run out and been cleared.
unfoldable pub timed_out : Lapm → State → Lapm
unfolding release send_xid_command send_sabme
timed_out l negotiating =
    let l' = record l { retries = l.retries + 1 } in
    if leb n400 l'.retries then release l' else send_xid_command l'
timed_out l establishing =
    let l' = record l { retries = l.retries + 1 } in
    if leb n400 l'.retries then release l' else send_sabme l'
timed_out l connected =
    let l' =
      if l.conditions.recovery
      then record l { retries = l.retries + 1 }
      else record l { conditions = record l.conditions { recovery = true }; retries = 0 } in
    if leb n400 l'.retries then release l' else record l' { owed = record l'.owed { poll = true } }
timed_out l (waiting _) = l
timed_out l released = l

abbrev pub past_deadline : State → ℕ → Bool
past_deadline (waiting deadline) now = leb deadline now
past_deadline _ now = false

unfoldable pub expire : Lapm → ℕ → Lapm
unfolding release timed_out
expire l now =
    if past_deadline l.state now
    then release l
    else if due l.timer now
    then timed_out (record l { timer = none }) l.state
    else l

-- `a.wrapping_sub(b) % MODULUS` on `u8`.
abbrev pub ahead : ℕ → ℕ → ℕ
ahead a b = (a + 256 - b) % 256 % modulus
