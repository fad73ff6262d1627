-- ===== src/Link/Phases/Sending.antt =====
-- The phases that the sending calls of lib.rs lead to.
use softmodem_rs.Prelude.{
  ℕ, zero, suc, ◌≡◌, refl, ap, inl, not, ◌&&◌, ◌||◌, Option, none, some, List, if_cases, length,
  ltb,
}
use softmodem_rs.Lapm.State.{Role, originate, answer, Lapm, originator, answerer}
use softmodem_rs.Lapm.State
use softmodem_rs.V42bis.Encoder.{Encoder, encode}
use softmodem_rs.Link.State.{Phase, Link, expire, adp_repeats}
use softmodem_rs.Link.Codec.{set_up_codec, encoder_of}
use softmodem_rs.Link.Send.{send_lapm, send_by, send, protocol_turn, turn, fill, transmit}
use softmodem_rs.Link.Phases.Starting.{
  Goes, rank, goes, here, Goes-trans, expire-Goes, set_up_codec-Goes,
}

-- A step of LAPM under the link.
pub stays :
    (l : Link) (m m' : Lapm) → l.phase ≡ Phase.protocol m → rank l.phase ≡ rank (Phase.protocol m')
stays l m m' e = ap rank e

send_lapm-Goes :
    (l : Link) (m : Lapm) (e : Option Encoder) (bytes : List ℕ)
    → l.phase ≡ Phase.protocol m
    → Goes l (send_lapm l m e bytes)
unfolding send_lapm
send_lapm-Goes l m none bytes h = goes refl (inl (stays l m (State.send m bytes) h))
send_lapm-Goes l m (some e) bytes h =
    goes refl (inl (stays l m (State.send m (encode e bytes).1) h))

send_by-Goes : (l : Link) (p : Phase) (bytes : List ℕ) → l.phase ≡ p → Goes l (send_by l p bytes)
unfolding send_by
send_by-Goes l (Phase.protocol m) bytes e = send_lapm-Goes l m (encoder_of l.codec) bytes e
send_by-Goes l Phase.idle bytes e = here
send_by-Goes l (Phase.originating deadline) bytes e = here
send_by-Goes l (Phase.listening deadline) bytes e = here
send_by-Goes l Phase.normal bytes e = goes refl (inl refl)
send_by-Goes l Phase.released bytes e = here

pub send-Goes : (l : Link) (bytes : List ℕ) → Goes l (send l bytes)
unfolding send
send-Goes l bytes =
    let l' = set_up_codec l in
    Goes-trans (set_up_codec-Goes l) (send_by-Goes l' l'.phase bytes refl)

-- `turn` may end the loop, and else goes on.
abbrev GoesOn : Link → Option Link → Type 0
GoesOn l none = Unit
GoesOn l (some l') = Goes l l'

-- The loop goes on where a turn leaves it.
go_on :
    {l : Link} {f : Link → Link} (o : Option Link)
    → GoesOn l o
    → ((l' : Link) → Goes l' (f l'))
    → Goes l (elim o [ none ↦ l | some l' ↦ f l' ])
go_on none g h = here
go_on (some l') g h = Goes-trans g (h l')

protocol_turn-Goes :
    (l : Link) (m : Lapm) (now : ℕ) → l.phase ≡ Phase.protocol m → Goes l (protocol_turn l m now)
unfolding protocol_turn
protocol_turn-Goes l m now e = goes refl (inl (stays l m m e))

turn-Goes : (l : Link) (p : Phase) (now : ℕ) → l.phase ≡ p → GoesOn l (turn l p now)
unfolding turn
turn-Goes l (Phase.originating deadline) now e =
    if_cases (GoesOn l) (ltb now deadline) _ _ (λ early. goes refl (inl refl)) (λ due. tt)
turn-Goes l (Phase.protocol m) now e =
    if_cases (GoesOn l) (ltb 0 l.adps && (ltb l.adps adp_repeats || not l.flags_heard)) _ _
      (λ adps. goes refl (inl refl)) (λ on. protocol_turn-Goes l m now e)
turn-Goes l Phase.idle now e = tt
turn-Goes l (Phase.listening deadline) now e = tt
turn-Goes l Phase.normal now e = tt
turn-Goes l Phase.released now e = tt

fill-Goes : (fuel : ℕ) (l : Link) (max' now : ℕ) → Goes l (fill fuel l max' now)
unfolding fill
fill-Goes zero l max' now = here
fill-Goes (suc fuel) l max' now =
    if_cases (Goes l) (ltb (length l.tx) max') _ _
      (λ more.
        go_on (turn l l.phase now) (turn-Goes l l.phase now refl)
          (λ l'. fill-Goes fuel l' max' now))
      (λ enough. here)

pub transmit-Goes : (l : Link) (max' now : ℕ) → Goes l (transmit l max' now).0
unfolding transmit
transmit-Goes l max' now =
    let l1 = expire l now in
    let l2 = fill max' l1 max' now in
    Goes-trans (expire-Goes l now) (Goes-trans (fill-Goes max' l1 max' now) (goes refl (inl refl)))
