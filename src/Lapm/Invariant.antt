-- ===== src/Lapm/Invariant.antt =====
-- The well-formedness of a `Lapm`, which every operation of lapm.rs keeps: the operations of
-- `State`. The children have those of `Receive` and `Transmit`.
pub mod Receiving
pub mod Sending
use softmodem_rs.Prelude.{
  ℕ, zero, suc, ◌+◌, ◌-◌, ◌*◌, ◌/◌, ◌%◌, ◌≤◌, ◌<◌, ◌≡◌, refl, min, max, Bool, true, false, not,
  ◌&&◌, ◌||◌, Option, none, some, List, [], ◌∷◌, ◌++◌, ltb, leb, ◌==◌, if◌then◌else◌, length, drop,
  take, length-drop, length-append, arith, All, Bool-cases, inl, inr,
}
use softmodem_rs.Frame.{Frame, Unnumbered}
use softmodem_rs.Xid.{Xid}
use softmodem_rs.V42bis.Negotiation.{Directions}
use softmodem_rs.Lapm.State.{
  Lapm, Role, State, waiting, negotiating, establishing, connected, released, is_connected,
  is_released, ahead, connect, release, fresh, originator, answerer, send, take_received, timed_out,
  expire, respond, send_sabme, send_xid_command, past_deadline, due,
}
use softmodem_rs.Lapm.Receive.{acknowledge}

pub record IsLapm (l : Lapm) : Type 0 where
  pub vs_lt : l.vs < 128
  pub va_lt : l.va < 128
  pub vr_lt : l.vr < 128
  pub k_low : 1 ≤ l.k_tx
  pub k_high : l.k_tx ≤ 127
  pub n401_low : 1 ≤ l.n401_tx
  pub n401_high : l.n401_tx ≤ 2048
  pub sent_le : length l.sent ≤ 127
  pub in_flight : is_connected l.state ≡ true → ahead l.vs l.va ≤ length l.sent
  pub retries_le : l.retries ≤ 10
  pub retries_lt : is_released l.state ≡ false → l.retries < 10
  pub unsent : is_connected l.state ≡ false → length l.sent ≡ 0
  pub unqueued : is_released l.state ≡ true → length l.queue ≡ 0

-- The window after an acknowledgement, as arithmetic.
ahead_drop :
    (vs va nr n : ℕ)
    → vs < 128
    → va < 128
    → nr < 128
    → ahead vs va ≤ n
    → ahead nr va ≤ n
    → ahead (if ltb (ahead vs va) (ahead nr va) then nr else vs) nr ≤ n - ahead nr va
ahead_drop vs va nr n h1 h2 h3 h4 h5 = ground arith

pub acknowledge-IsLapm :
    (l l' : Lapm) (nr now : ℕ)
    → IsLapm l
    → is_connected l.state ≡ true
    → nr < 128
    → acknowledge l nr now ≡ some l'
    → IsLapm l' × (is_connected l'.state ≡ true)
unfolding acknowledge
acknowledge-IsLapm l l' nr now v c h e = ground (
  arith,
  length-drop (ahead nr l.va) l.sent,
  ahead_drop l.vs l.va nr (length l.sent) v.vs_lt v.va_lt h (v.in_flight c),
)

pub connect-IsLapm : (l : Lapm) → IsLapm l → IsLapm (connect l)
unfolding connect
connect-IsLapm l v = ground arith

pub release-IsLapm : (l : Lapm) → IsLapm l → IsLapm (release l)
unfolding release
release-IsLapm l v = ground arith

pub respond-IsLapm :
    (l : Lapm) (kind : Unnumbered) (pf : Bool) (info : List ℕ)
    → IsLapm l
    → IsLapm (respond l kind pf info)
unfolding respond
respond-IsLapm l kind pf info v = ground arith

fresh-IsLapm :
    (role : Role) (state : State) (t401 : ℕ) (offer : Option Directions)
    → IsLapm (fresh role state t401 offer)
unfolding fresh
fresh-IsLapm role state t401 offer = ground arith

-- A new originator and a new answerer are well-formed.
pub originator-IsLapm : (t401 : ℕ) (offer : Option Directions) → IsLapm (originator t401 offer)
unfolding originator
originator-IsLapm t401 offer = ground (arith, fresh-IsLapm Role.originate negotiating t401 offer)

pub answerer-IsLapm : (t401 now : ℕ) (offer : Option Directions) → IsLapm (answerer t401 now offer)
unfolding answerer
answerer-IsLapm t401 now offer = ground arith

pub send-IsLapm : (l : Lapm) (bytes : List ℕ) → IsLapm l → IsLapm (send l bytes)
unfolding send
send-IsLapm l bytes v = ground arith

pub take_received-IsLapm : (l : Lapm) → IsLapm l → IsLapm (take_received l).0
unfolding take_received
take_received-IsLapm l v = ground arith

timed_out-IsLapm : (l : Lapm) (s : State) → l.state ≡ s → IsLapm l → IsLapm (timed_out l s)
unfolding timed_out
timed_out-IsLapm l connected e v = ground arith
timed_out-IsLapm l negotiating e v = ground arith
timed_out-IsLapm l establishing e v = ground arith
timed_out-IsLapm l (waiting d) e v = v
timed_out-IsLapm l released e v = v

cleared-IsLapm : (l : Lapm) → IsLapm l → IsLapm (record l { timer = none })
cleared-IsLapm l v = ground arith

pub expire-IsLapm : (l : Lapm) (now : ℕ) → IsLapm l → IsLapm (expire l now)
unfolding expire
expire-IsLapm l now v = elim (Bool-cases (past_deadline l.state now)) [
  | inl e ↦ rw e (release-IsLapm l v)
  | inr e ↦ elim (Bool-cases (due l.timer now)) [
    | inl d ↦
        rw (e, d) (timed_out-IsLapm (record l { timer = none }) l.state refl (cleared-IsLapm l v))
    | inr d ↦ rw (e, d) v
  ]
]
