-- ===== src/Lapm/Invariant/Receiving.antt =====
-- `receive` keeps a `Lapm` well-formed, whatever octets come.
use softmodem_rs.Prelude.{
  ℕ, ◌<◌, ◌≡◌, refl, Bool, true, false, not, ◌&&◌, Option, none, some, List, [], ◌∷◌, if◌then◌else◌,
  arith, All, Bool-cases, inl, inr, Option-cases,
}
use softmodem_rs.Prelude.Result.{Result, ok, err}
use softmodem_rs.Frame
use softmodem_rs.Frame.{
  Frame, Control, Unnumbered, Supervisory, Rejected, i_format, s_format, u_format, rr, rnr, rej,
  srej, sabme, dm, ui, disc, ua, frmr, xid, test_frame, invalid, undefined,
}
use softmodem_rs.Frame.RoundTrip.{bytes-parse, IsControl}
use softmodem_rs.Xid
use softmodem_rs.Xid.{Xid}
use softmodem_rs.Lapm.State.{
  Lapm, State, waiting, negotiating, establishing, connected, released, is_connected, connect,
  expire, respond,
}
use softmodem_rs.Lapm.Receive.{
  acknowledge, xid_command, xid_response, break_signal, dispatch, take_information, information,
  recovered, take_supervisory, supervisory_in, numbered, accept, receive_parsed, receive, is_srej,
  owe_final, confirmed,
}
use softmodem_rs.Lapm.Invariant.{
  IsLapm, acknowledge-IsLapm, connect-IsLapm, release-IsLapm, respond-IsLapm, expire-IsLapm,
}

xid_command-IsLapm : (l : Lapm) (o : Option Xid) → IsLapm l → IsLapm (xid_command l o)
unfolding xid_command
xid_command-IsLapm l none v = v
xid_command-IsLapm l (some theirs) v = ground arith

xid_response-IsLapm :
    (l : Lapm) (o : Option Xid) → l.state ≡ negotiating → IsLapm l → IsLapm (xid_response l o)
unfolding xid_response
xid_response-IsLapm l none e v = v
xid_response-IsLapm l (some theirs) e v = ground arith

break_signal-IsLapm :
    (l : Lapm) (pf : Bool) (info : List ℕ) → IsLapm l → IsLapm (break_signal l pf info)
unfolding break_signal
break_signal-IsLapm l pf [] v = v
break_signal-IsLapm l pf (first ∷ rest) v = ground arith

take_information-IsLapm :
    (l : Lapm) (ns : ℕ) (poll : Bool) (info : List ℕ)
    → IsLapm l
    → IsLapm (take_information l ns poll info)
unfolding take_information
take_information-IsLapm l ns poll info v = ground arith

recovered-IsLapm :
    (l : Lapm) (kind : Supervisory) (nr now : ℕ)
    → nr < 128
    → l.va ≡ nr
    → IsLapm l
    → IsLapm (recovered l kind nr now)
unfolding recovered
recovered-IsLapm l kind nr now h e v = ground arith

take_supervisory-IsLapm :
    (l : Lapm) (kind : Supervisory) (nr now : ℕ)
    → nr < 128
    → l.va ≡ nr
    → IsLapm l
    → IsLapm (take_supervisory l kind nr now)
unfolding take_supervisory
take_supervisory-IsLapm l rnr nr now h e v = ground arith
take_supervisory-IsLapm l kind nr now h e v = ground arith

dispatch-IsLapm :
    (l : Lapm) (pf : Bool) (info : List ℕ) (kind : Unnumbered) (command : Bool) (s : State)
    → l.state ≡ s
    → IsLapm l
    → IsLapm (dispatch l pf info kind command s)
unfolding dispatch
dispatch-IsLapm l pf info _ _ released e v = v
dispatch-IsLapm l pf info xid true _ e v = xid_command-IsLapm l (Xid.parse info) v
dispatch-IsLapm l pf info xid false negotiating e v = xid_response-IsLapm l (Xid.parse info) e v
dispatch-IsLapm l pf info sabme true (waiting _) e v =
    respond-IsLapm (connect l) ua pf [] (connect-IsLapm l v)
dispatch-IsLapm l pf info sabme true connected e v =
    ground (arith, respond-IsLapm l ua pf [] v, release-IsLapm l v)
dispatch-IsLapm l pf info ua false establishing e v = ground (arith, connect-IsLapm l v)
dispatch-IsLapm l pf info dm false establishing e v = ground (arith, release-IsLapm l v)
dispatch-IsLapm l pf info disc true connected e v =
    release-IsLapm (respond l ua pf []) (respond-IsLapm l ua pf [] v)
dispatch-IsLapm l pf info disc true _ e v = respond-IsLapm l dm pf [] v
dispatch-IsLapm l pf info dm false connected e v = ground (arith, release-IsLapm l v)
dispatch-IsLapm l pf info frmr false connected e v = release-IsLapm l v
dispatch-IsLapm l pf info ui true connected e v = break_signal-IsLapm l pf info v
dispatch-IsLapm l pf info _ _ _ e v = v

acknowledge-va : (l l' : Lapm) (nr now : ℕ) → acknowledge l nr now ≡ some l' → l'.va ≡ nr
unfolding acknowledge
acknowledge-va l l' nr now e = ground arith

information-IsLapm :
    (l : Lapm) (ns nr : ℕ) (poll : Bool) (info : List ℕ) (now : ℕ)
    → is_connected l.state ≡ true
    → nr < 128
    → IsLapm l
    → IsLapm (information l ns nr poll info now)
unfolding information
information-IsLapm l ns nr poll info now c h v = elim (Option-cases (acknowledge l nr now)) [
  | inl e ↦ rw (e, information) (release-IsLapm l v)
  | inr (l', e) ↦
      rw (e, information)
        (take_information-IsLapm l' ns poll info (acknowledge-IsLapm l l' nr now v c h e).0)
]

owe_final-IsLapm :
    (l : Lapm) (b : Bool) (nr : ℕ)
    → l.va ≡ nr
    → IsLapm l
    → IsLapm (owe_final l b) × ((owe_final l b).va ≡ nr)
owe_final-IsLapm l true nr e v = ground arith
owe_final-IsLapm l false nr e v = (v, e)

supervisory_in-IsLapm :
    (l : Lapm) (kind : Supervisory) (nr : ℕ) (pf command : Bool) (now : ℕ)
    → is_connected l.state ≡ true
    → nr < 128
    → IsLapm l
    → IsLapm (supervisory_in l kind nr pf command now)
unfolding supervisory_in
supervisory_in-IsLapm l kind nr pf command now c h v = elim (Bool-cases (is_srej kind)) [
  | inl s ↦ rw (s, supervisory_in) (release-IsLapm l v)
  | inr s ↦ elim (Option-cases (acknowledge l nr now)) [
    | inl e ↦ rw (s, e, supervisory_in) (release-IsLapm l v)
    | inr (l', e) ↦
        let v' = (acknowledge-IsLapm l l' nr now v c h e).0 in
        let va = acknowledge-va l l' nr now e in
        let w = owe_final-IsLapm l' (command && pf) nr va v' in
        elim (Bool-cases (not command && pf && l.conditions.recovery)) [
          | inl r ↦ rw (s, e, r, supervisory_in) (recovered-IsLapm l' kind nr now h va v')
          | inr r ↦
              rw (s, e, r, supervisory_in)
                (take_supervisory-IsLapm (owe_final l' (command && pf)) kind nr now h w.1 w.0)
        ]
  ]
]

-- N(R) of a control field that was read from octets has seven bits.
abbrev HasNr : Control → Type 0
HasNr (i_format ns nr poll) = nr < 128
HasNr (s_format kind nr pf) = nr < 128
HasNr (u_format kind pf) = Unit

numbered-IsLapm :
    (l : Lapm) (control : Control) (info : List ℕ) (command : Bool) (now : ℕ)
    → is_connected l.state ≡ true
    → HasNr control
    → IsLapm l
    → IsLapm (numbered l control info command now)
unfolding numbered
numbered-IsLapm l (i_format ns nr poll) info true now c h v =
    information-IsLapm l ns nr poll info now c h v
numbered-IsLapm l (i_format ns nr poll) info false now c h v = v
numbered-IsLapm l (s_format kind nr pf) info command now c h v =
    supervisory_in-IsLapm l kind nr pf command now c h v
numbered-IsLapm l (u_format kind pf) info command now c h v = v

confirmed-IsLapm : (l : Lapm) → IsLapm l → IsLapm (confirmed l)
confirmed-IsLapm l v = ground (arith, connect-IsLapm l v)

connected_step-IsLapm :
    (l : Lapm) (control : Control) (info : List ℕ) (command : Bool) (now : ℕ)
    → HasNr control
    → IsLapm l
    → IsLapm (if is_connected l.state then numbered l control info command now else l)
connected_step-IsLapm l control info command now h v = elim (Bool-cases (is_connected l.state)) [
  | inl c ↦ rw c (numbered-IsLapm l control info command now c h v)
  | inr c ↦ rw c v
]

accept-IsLapm :
    (l : Lapm) (frame : Frame) (command : Bool) (control : Control) (now : ℕ)
    → HasNr control
    → IsLapm l
    → IsLapm (accept l frame command control now)
unfolding accept
accept-IsLapm l frame command (u_format kind pf) now h v =
    dispatch-IsLapm l pf frame.info kind command l.state refl v
accept-IsLapm l frame command (i_format ns nr poll) now h v =
    connected_step-IsLapm (confirmed l) (i_format ns nr poll) frame.info command now h
      (confirmed-IsLapm l v)
accept-IsLapm l frame command (s_format kind nr pf) now h v =
    connected_step-IsLapm (confirmed l) (s_format kind nr pf) frame.info command now h
      (confirmed-IsLapm l v)

IsControl-HasNr : (c : Control) (info : List ℕ) → IsControl c info → HasNr c
IsControl-HasNr (i_format ns nr poll) info h = h.1
IsControl-HasNr (s_format srej nr pf) info h = h
IsControl-HasNr (s_format rr nr pf) info h = h.0
IsControl-HasNr (s_format rnr nr pf) info h = h.0
IsControl-HasNr (s_format rej nr pf) info h = h.0
IsControl-HasNr (u_format kind pf) info h = tt

receive_parsed-IsLapm :
    (l : Lapm) (r : Result Rejected Frame) (now : ℕ)
    → ((f : Frame) → r ≡ ok f → HasNr f.control)
    → IsLapm l
    → IsLapm (receive_parsed l r now)
unfolding receive_parsed
receive_parsed-IsLapm l (ok f) now h v = accept-IsLapm l f _ f.control now (h f refl) v
receive_parsed-IsLapm l (err undefined) now h v = ground (arith, release-IsLapm l v)
receive_parsed-IsLapm l (err invalid) now h v = v

-- Whatever octets come, and whenever, a well-formed end is well-formed after `receive`.
pub receive-IsLapm :
    (l : Lapm) (bytes : List ℕ) (now : ℕ)
    → All (λ b. b < 256) bytes
    → IsLapm l
    → IsLapm (receive l bytes now)
unfolding receive
receive-IsLapm l bytes now h v =
    receive_parsed-IsLapm (expire l now) (Frame.parse bytes) now
      (λ f e. IsControl-HasNr f.control f.info (bytes-parse bytes f h e).1) (expire-IsLapm l now v)
