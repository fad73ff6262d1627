-- ===== src/Link/Phases/Hearing.antt =====
-- The phases that the receiving calls of lib.rs lead to.
use softmodem_rs.Prelude.{
  ℕ, ◌≤◌, ◌≡◌, refl, inl, inr, Bool, ◌||◌, Option, none, some, List, [], ◌∷◌, if_cases, arith, leb,
}
use softmodem_rs.Prelude.Result.{ok, err}
use softmodem_rs.Lapm.State.{Role, originate, answer, Lapm, originator, answerer}
use softmodem_rs.Lapm.State
use softmodem_rs.Lapm.Receive
use softmodem_rs.Detect.{Adp, odp, adp}
use softmodem_rs.Uart
use softmodem_rs.Hdlc
use softmodem_rs.V42bis.Decoder.{Decoder, Decoded, failed, hangs, decode}
use softmodem_rs.Link.State.{offer, Phase, Link, expire, enough_flags}
use softmodem_rs.Link.Codec.{set_up_codec, decoder_of}
use softmodem_rs.Link.Receive.{
  is_some, receive_some, hear_frame, hear_lapm, answer_adp, detect_by, detect, hear_byte,
  hear_normal, hear, hear_all, deliver_by, deliver_decoded, deliver, deliver_lapm, receive,
}
use softmodem_rs.Link.Phases.Starting.{
  Goes, rank, goes, here, Goes-trans, fall_back-Goes, enter_protocol-Goes, expire-Goes,
  set_up_codec-Goes,
}
use softmodem_rs.Link.Phases.Sending.{stays}

hear_frame-Goes :
    (l : Link) (m : Lapm) (frame : Option (List ℕ)) (now : ℕ)
    → l.phase ≡ Phase.protocol m
    → Goes l (hear_frame l m frame now)
hear_frame-Goes l m none now e = here
hear_frame-Goes l m (some frame) now e = goes refl (inl (stays l m (Receive.receive m frame now) e))

hear_byte-Goes : (l : Link) (r : Uart.Decoder × Option ℕ) → Goes l (hear_byte l r)
hear_byte-Goes l (d, none) = goes refl (inl refl)
hear_byte-Goes l (d, some byte) = goes refl (inl refl)

hear_normal-Goes : (l : Link) (r : Uart.Decoder × Option ℕ) → Goes l (hear_normal l r)
hear_normal-Goes l (d, none) = goes refl (inl refl)
hear_normal-Goes l (d, some byte) = goes refl (inl refl)

hear_lapm-Goes :
    (l : Link) (m : Lapm) (bit : Bool) (now : ℕ)
    → l.phase ≡ Phase.protocol m
    → Goes l (hear_lapm l m bit now)
unfolding hear_lapm
hear_lapm-Goes l m bit now e =
    let (deframer, frame) = Hdlc.push l.deframer bit in
    let l1 : Link = record l { deframer = deframer } in
    let last : Goes (hear_frame l1 m frame now) (hear_lapm l m bit now) = goes refl (inl refl) in
    Goes-trans (goes {l' = l1} refl (inl refl)) (Goes-trans (hear_frame-Goes l1 m frame now e) last)

answer_adp-Goes : (l : Link) (a : Option Adp) → rank l.phase ≤ 1 → Goes l (answer_adp l a)
unfolding answer_adp
answer_adp-Goes l none h = here
answer_adp-Goes l (some Adp.lapm) h = enter_protocol-Goes l (originator l.t401 (offer l.setup)) h
answer_adp-Goes l (some Adp.no_error_correction) h =
    let l1 : Link = record l { held = [] } in
    Goes-trans (goes {l' = l1} refl (inl refl)) (fall_back-Goes l1 h)

detect_by-Goes :
    (l : Link) (p : Phase) (frame : Option (List ℕ)) (now : ℕ)
    → l.phase ≡ p
    → Goes l (detect_by l p frame now)
unfolding detect_by
detect_by-Goes l (Phase.originating deadline) frame now e =
    let h : rank l.phase ≤ 1 = rw e (omega arith) in answer_adp-Goes l (adp l.heard) h
detect_by-Goes l (Phase.listening deadline) frame now e =
    let h : rank l.phase ≤ 1 = rw e (omega arith) in
    let m = answerer l.t401 now (offer l.setup) in
    if_cases (Goes l) (odp l.heard) _ _
      (λ called. Goes-trans (enter_protocol-Goes l m h) (goes refl (inl refl)))
      (λ silent.
        if_cases (Goes l) (is_some frame || leb enough_flags l.deframer.flags_in_a_row) _ _
          (λ flags.
            Goes-trans (enter_protocol-Goes l (receive_some m frame now) h) (goes refl (inl refl)))
          (λ nothing. here))
detect_by-Goes l Phase.idle frame now e = here
detect_by-Goes l (Phase.protocol m) frame now e = here
detect_by-Goes l Phase.normal frame now e = here
detect_by-Goes l Phase.released frame now e = here

detect-Goes : (l : Link) (bit : Bool) (now : ℕ) → Goes l (detect l bit now)
unfolding detect
detect-Goes l bit now =
    let (deframer, frame) = Hdlc.push l.deframer bit in
    let l1 : Link = record l { deframer = deframer } in
    let l2 = hear_byte l1 (Uart.push l.decoder bit) in
    let heard : Goes l1 l2 = hear_byte-Goes l1 (Uart.push l.decoder bit) in
    Goes-trans (goes refl (inl refl)) (Goes-trans heard (detect_by-Goes l2 l2.phase frame now refl))

hear-Goes : (l : Link) (p : Phase) (bit : Bool) (now : ℕ) → l.phase ≡ p → Goes l (hear l p bit now)
unfolding hear
hear-Goes l (Phase.protocol m) bit now e = hear_lapm-Goes l m bit now e
hear-Goes l Phase.normal bit now e = hear_normal-Goes l (Uart.push l.decoder bit)
hear-Goes l Phase.released bit now e = here
hear-Goes l Phase.idle bit now e = detect-Goes l bit now
hear-Goes l (Phase.originating deadline) bit now e = detect-Goes l bit now
hear-Goes l (Phase.listening deadline) bit now e = detect-Goes l bit now

hear_all-Goes : (l : Link) (bits : List Bool) (now : ℕ) → Goes l (hear_all l bits now)
unfolding hear_all
hear_all-Goes l [] now = here
hear_all-Goes l (bit ∷ bits) now =
    Goes-trans (hear-Goes l l.phase bit now refl) (hear_all-Goes (hear l l.phase bit now) bits now)

deliver_decoded-Goes : (l : Link) (r : Decoded) → rank l.phase ≤ 2 → Goes l (deliver_decoded l r)
deliver_decoded-Goes l (ok (d, out)) h = goes refl (inl refl)
deliver_decoded-Goes l (err (failed e, out)) h = goes refl (inr (inr (inr (h, refl))))
deliver_decoded-Goes l (err (hangs, out)) h = goes refl (inl refl)

deliver-Goes :
    (l : Link) (d : Option Decoder) (octets : List ℕ)
    → rank l.phase ≤ 2
    → Goes l (deliver l d octets)
unfolding deliver
deliver-Goes l none octets h = goes refl (inl refl)
deliver-Goes l (some d) octets h = deliver_decoded-Goes l (decode d octets l.received) h

deliver_by-Goes : (l : Link) (p : Phase) → l.phase ≡ p → Goes l (deliver_by l p)
unfolding deliver_by
deliver_by-Goes l (Phase.protocol m) e =
    let m' = (State.take_received m).0 in
    let l1 : Link = record l { phase = Phase.protocol m' } in
    Goes-trans (goes {l' = l1} refl (inl (stays l m m' e)))
      (deliver-Goes l1 (decoder_of l.codec) (State.take_received m).1 (omega arith))
deliver_by-Goes l Phase.idle e = here
deliver_by-Goes l (Phase.originating deadline) e = here
deliver_by-Goes l (Phase.listening deadline) e = here
deliver_by-Goes l Phase.normal e = here
deliver_by-Goes l Phase.released e = here

pub receive-Goes : (l : Link) (bits : List Bool) (now : ℕ) → Goes l (receive l bits now)
unfolding receive deliver_lapm
receive-Goes l bits now =
    let l1 = expire l now in
    let l2 = hear_all l1 bits now in
    let l3 = set_up_codec l2 in
    let l4 = deliver_by l3 l3.phase in
    Goes-trans (expire-Goes l now) (
      Goes-trans (hear_all-Goes l1 bits now) (
        Goes-trans (set_up_codec-Goes l2)
          (Goes-trans (deliver_by-Goes l3 l3.phase refl) (expire-Goes l4 now))))
