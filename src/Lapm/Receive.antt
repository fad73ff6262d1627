-- ===== src/Lapm/Receive.antt =====
-- `Lapm::receive` of lapm.rs, and the handlers that it calls.
use softmodem_rs.Prelude.{
  ℕ, ◌+◌, ◌*◌, ◌/◌, ◌%◌, min, max, Bool, true, false, not, ◌&&◌, ◌||◌, Option, none, some, List, [],
  ◌∷◌, ◌++◌, ltb, ◌==◌, if◌then◌else◌, length, drop,
}
use softmodem_rs.Prelude.Result.{Result, ok, err}
use softmodem_rs.Prelude.Maybe.{◌>>=◌}
use softmodem_rs.Frame
use softmodem_rs.Frame.{
  Frame, Control, Unnumbered, Supervisory, Rejected, i_format, s_format, u_format, rr, rnr, rej,
  srej, sabme, dm, ui, disc, ua, frmr, xid, invalid, undefined,
}
use softmodem_rs.Xid
use softmodem_rs.Xid.{Xid, Compression}
use softmodem_rs.V42bis.Negotiation
use softmodem_rs.V42bis.Negotiation.{Directions, ProceduralError}
use softmodem_rs.Lapm.State.{
  Lapm, State, waiting, negotiating, establishing, connected, released, default_n401, default_k,
  max_n401, max_k, modulus, is_connected, is_establishing, is_originate, same, ahead, connect,
  release, respond, send_sabme, expire,
}

abbrev pub brk : ℕ
brk = 0x40

abbrev pub brkack : ℕ
brkack = 0x60

-- `n.map_or(DEFAULT_N401, |n| n.clamp(1, MAX_N401))`
abbrev pub clamp_n401 : Option ℕ → ℕ
clamp_n401 none = default_n401
clamp_n401 (some n) = min (max n 1) max_n401

abbrev pub clamp_k : Option ℕ → ℕ
clamp_k none = default_k
clamp_k (some k) = min (max k 1) max_k

-- `Result::ok`
abbrev result_ok {ℓ} : {A : Type ℓ} → Result ProceduralError A → Option A
result_ok (ok a) = some a
result_ok (err e) = none

-- `agree`, with what it writes to `self.compression` and the reply's compression.
abbrev agreed_compression :
    Lapm → Option Compression → Option (Option Directions × Option Compression)
agreed_compression l none = some (l.compression, none)
agreed_compression l (some theirs) = if is_connected l.state then some (l.compression, none) else do
  (reply, agreed) ← result_ok (Negotiation.answer l.offer theirs)
  some (agreed, some reply)

-- `none` is the `None` of `agree`, which has then changed nothing.
unfoldable pub agree : Lapm → Xid → Option (Lapm × Xid)
agree l theirs = do
  (agreed, reply) ← agreed_compression l theirs.compression
  let l' = record l {
    compression = agreed;
    n401_tx = clamp_n401 theirs.n401_rx;
    k_tx = clamp_k theirs.k_rx;
  }
  some (
    l',
    record {
      functions = 0;
      n401_tx = some l'.n401_tx;
      n401_rx = some (clamp_n401 theirs.n401_tx);
      k_tx = some l'.k_tx;
      k_rx = some (clamp_k theirs.k_tx);
      compression = reply;
    },
  )

unfoldable pub xid_command : Lapm → Option Xid → Lapm
unfolding agree respond release
xid_command l none = l
xid_command l (some theirs) = elim (agree l theirs) [
  | none ↦ release l
  | some (l', ours) ↦ respond l' xid false (Xid.bytes ours)
]

-- `self.offer.map_or(Ok(None), |offer| offer.conclude(theirs.compression)).ok()`
abbrev concluded : Option Directions → Option Compression → Option (Option Directions)
concluded none reply = some none
concluded (some offer) reply = result_ok (Negotiation.conclude offer reply)

unfoldable pub xid_response : Lapm → Option Xid → Lapm
unfolding release send_sabme
xid_response l none = l
xid_response l (some theirs) = elim (concluded l.offer theirs.compression) [
  | none ↦ release l
  | some agreed ↦ send_sabme (record l {
    compression = agreed;
    n401_tx = clamp_n401 theirs.n401_rx;
    k_tx = clamp_k theirs.k_rx;
    state = establishing;
    retries = 0;
    timer = none;
  })
]

abbrev is_empty : List (List ℕ) → Bool
is_empty [] = true
is_empty (_ ∷ _) = false

abbrev from_bool : Bool → ℕ
from_bool true = 1
from_bool false = 0

unfoldable pub break_signal : Lapm → Bool → List ℕ → Lapm
unfolding respond
break_signal l pf [] = l
break_signal l pf (first ∷ rest) =
    let rb = if same (first / 128 % 2 == 1) l.rb then not l.rb else l.rb in
    if not (first % 128 == brk)
    then l
    else respond (record l { rb = rb }) ui pf ((brkack + from_bool rb * 128) ∷ [])

-- The match of `unnumbered` on the kind, whether it is a command, and the state.
unfoldable pub dispatch : Lapm → Bool → List ℕ → Unnumbered → Bool → State → Lapm
unfolding xid_command xid_response connect respond release break_signal
dispatch l pf info _ _ released = l
dispatch l pf info xid true _ = xid_command l (Xid.parse info)
dispatch l pf info xid false negotiating = xid_response l (Xid.parse info)
dispatch l pf info sabme true (waiting _) = respond (connect l) ua pf []
dispatch l pf info sabme true connected =
    if l.vs == 0 && l.va == 0 && l.vr == 0 && is_empty l.sent then respond l ua pf [] else release l
dispatch l pf info ua false establishing = if pf then connect l else l
dispatch l pf info dm false establishing = if pf then release l else l
dispatch l pf info disc true connected = release (respond l ua pf [])
dispatch l pf info disc true _ = respond l dm pf []
dispatch l pf info dm false connected = if not pf || l.conditions.recovery then release l else l
dispatch l pf info frmr false connected = release l
dispatch l pf info ui true connected = break_signal l pf info
dispatch l pf info _ _ _ = l

-- `acknowledge`: `none` is its `false`, which has changed nothing.
unfoldable pub acknowledge : Lapm → ℕ → ℕ → Option Lapm
acknowledge l nr now =
    let acked = ahead nr l.va in
    let in_flight = ahead l.vs l.va in
    let vs = if ltb in_flight acked then nr else l.vs in
    let outstanding = not (vs == nr) in
    if ltb (length l.sent) acked
    then none
    else some (record l {
      sent = drop acked l.sent;
      va = nr;
      vs = vs;
      timer =
          if ltb 0 acked && not l.conditions.recovery
          then if outstanding then some (now + l.t401) else none
          else l.timer;
    })

-- What `information` does with an acknowledged I frame.
unfoldable pub take_information : Lapm → ℕ → Bool → List ℕ → Lapm
take_information l ns poll info =
    if ns == l.vr
    then record l {
      received = l.received ++ info;
      vr = (l.vr + 1) % modulus;
      conditions = record l.conditions { reject = false };
      owed = if poll then record l.owed { final_rr = true } else record l.owed { ack = true };
    }
    else if not l.conditions.reject
    then record l {
      conditions = record l.conditions { reject = true };
      owed = record l.owed { reject = some poll };
    }
    else if poll
    then record l { owed = record l.owed { final_rr = true } }
    else l

unfoldable pub information : Lapm → ℕ → ℕ → Bool → List ℕ → ℕ → Lapm
unfolding acknowledge take_information release
information l ns nr poll info now = elim (acknowledge l nr now) [
  | none ↦ release l
  | some l' ↦ take_information l' ns poll info
]

abbrev pub is_rnr : Supervisory → Bool
is_rnr rnr = true
is_rnr _ = false

-- The end of timer recovery, after the acknowledgement.
unfoldable pub recovered : Lapm → Supervisory → ℕ → ℕ → Lapm
recovered l kind nr now = record l {
  conditions = record l.conditions { recovery = false; peer_busy = is_rnr kind };
  vs = nr;
  timer = if is_rnr kind then some (now + l.t401) else none;
}

-- The last match of `supervisory_in`.
unfoldable pub take_supervisory : Lapm → Supervisory → ℕ → ℕ → Lapm
take_supervisory l rnr nr now =
    let l' = record l { conditions = record l.conditions { peer_busy = true } } in
    if l.conditions.recovery then l' else record l' { timer = some (now + l.t401) }
take_supervisory l rej nr now =
    let l' = record l { conditions = record l.conditions { peer_busy = false } } in
    if l.conditions.recovery then l' else record l' { vs = nr; timer = none }
take_supervisory l _ nr now = record l { conditions = record l.conditions { peer_busy = false } }

abbrev pub is_srej : Supervisory → Bool
is_srej srej = true
is_srej _ = false

abbrev pub owe_final : Lapm → Bool → Lapm
owe_final l b = if b then record l { owed = record l.owed { final_rr = true } } else l

unfoldable pub supervisory_in : Lapm → Supervisory → ℕ → Bool → Bool → ℕ → Lapm
unfolding acknowledge recovered take_supervisory release
supervisory_in l kind nr pf command now =
    if is_srej kind then release l else elim (acknowledge l nr now) [
      | none ↦ release l
      | some l' ↦
          if not command && pf && l.conditions.recovery
          then recovered l' kind nr now
          else take_supervisory (owe_final l' (command && pf)) kind nr now
    ]

-- An I or S frame at an end that is connected.
unfoldable pub numbered : Lapm → Control → List ℕ → Bool → ℕ → Lapm
unfolding information supervisory_in
numbered l (i_format ns nr poll) info command now =
    if command then information l ns nr poll info now else l
numbered l (s_format kind nr pf) info command now = supervisory_in l kind nr pf command now
numbered l (u_format kind pf) info command now = l

-- `self.state == State::Establishing` and the connection that it implies.
abbrev pub confirmed : Lapm → Lapm
confirmed l = if is_establishing l.state then connect l else l

unfoldable pub accept : Lapm → Frame → Bool → Control → ℕ → Lapm
unfolding dispatch numbered connect
accept l frame command (u_format kind pf) now = dispatch l pf frame.info kind command l.state
accept l frame command control now =
    let l' = confirmed l in
    if is_connected l'.state then numbered l' control frame.info command now else l'

unfoldable pub receive_parsed : Lapm → Result Rejected Frame → ℕ → Lapm
unfolding accept release
receive_parsed l (ok frame) now =
    accept l frame (same frame.cr (not (is_originate l.role))) frame.control now
receive_parsed l (err undefined) now = if is_connected l.state then release l else l
receive_parsed l (err invalid) now = l

unfoldable pub receive : Lapm → List ℕ → ℕ → Lapm
unfolding expire receive_parsed
receive l bytes now = receive_parsed (expire l now) (Frame.parse bytes) now
