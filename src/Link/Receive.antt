-- ===== src/Link/Receive.antt =====
-- softmodem-link/src/lib.rs: what a link does with the data pump's bits.
use softmodem_rs.Prelude.{
  ℕ, Bool, true, false, ◌&&◌, ◌||◌, Option, none, some, List, [], ◌∷◌, ◌++◌, ltb, leb,
  if◌then◌else◌,
}
use softmodem_rs.Prelude.Result.{ok, err}
use softmodem_rs.Lapm.State.{Role, originate, answer, Lapm, originator, answerer, is_originate}
use softmodem_rs.Lapm.State
use softmodem_rs.Lapm.Receive
use softmodem_rs.Detect.{Adp, lapm, no_error_correction, Heard, odp, adp, push_odp, push_adp}
use softmodem_rs.Detect
use softmodem_rs.Uart
use softmodem_rs.Hdlc
use softmodem_rs.V42bis.Decoder.{Decoder, Decoded, failed, hangs, decode}
use softmodem_rs.Link.State.{
  enough_flags, sound_flags, offer, Phase, Link, enter_protocol, fall_back, expire,
}
use softmodem_rs.Link.Codec.{set_up_codec, decoder_of, with_decoder}

abbrev pub hear_frame : Link → Lapm → Option (List ℕ) → ℕ → Link
hear_frame l m none now = l
hear_frame l m (some frame) now = record l {
  flags_heard = true;
  sound_at = some now;
  phase = Phase.protocol (Receive.receive m frame now);
}

unfoldable pub hear_lapm : Link → Lapm → Bool → ℕ → Link
unfolding Receive.receive
hear_lapm l m bit now =
    let flags = l.deframer.flags_in_a_row in
    let (deframer, frame) = Hdlc.push l.deframer bit in
    let l' = hear_frame (record l { deframer = deframer }) m frame now in
    let more_flags = deframer.flags_in_a_row in
    record l' {
      flags_heard = l'.flags_heard || leb enough_flags more_flags;
      sound_at =
          if ltb flags more_flags && leb sound_flags more_flags then some now else l'.sound_at;
    }

abbrev pub is_some : Option (List ℕ) → Bool
is_some none = false
is_some (some frame) = true

abbrev pub receive_some : Lapm → Option (List ℕ) → ℕ → Lapm
receive_some m none now = m
receive_some m (some frame) now = Receive.receive m frame now

-- What an originator does about an ADP.
unfoldable pub answer_adp : Link → Option Adp → Link
unfolding enter_protocol fall_back
answer_adp l none = l
answer_adp l (some Adp.lapm) = enter_protocol l (originator l.t401 (offer l.setup))
answer_adp l (some Adp.no_error_correction) = fall_back (record l { held = [] })

-- The match of `detect` on the phase, after the bit was pushed.
unfoldable pub detect_by : Link → Phase → Option (List ℕ) → ℕ → Link
unfolding answer_adp enter_protocol odp adp push_adp Receive.receive
detect_by l (Phase.originating deadline) frame now = answer_adp l (adp l.heard)
detect_by l (Phase.listening deadline) frame now =
    let m = answerer l.t401 now (offer l.setup) in
    let called = enter_protocol l m in
    let flagged = enter_protocol l (receive_some m frame now) in
    if odp l.heard
    then record called { adps = 1; tx = push_adp called.tx Adp.lapm }
    else if is_some frame || leb enough_flags l.deframer.flags_in_a_row
    then record flagged { tx = Hdlc.push_flag flagged.tx }
    else l
detect_by l Phase.idle frame now = l
detect_by l (Phase.protocol m) frame now = l
detect_by l Phase.normal frame now = l
detect_by l Phase.released frame now = l

abbrev pub hear_byte : Link → Uart.Decoder × Option ℕ → Link
hear_byte l (decoder, none) = record l { decoder = decoder }
hear_byte l (decoder, some byte) = record l {
  decoder = decoder;
  held = l.held ++ byte ∷ [];
  heard = Detect.push l.heard byte;
}

unfoldable pub detect : Link → Bool → ℕ → Link
unfolding detect_by Uart.push Detect.push
detect l bit now =
    let (deframer, frame) = Hdlc.push l.deframer bit in
    let l' = hear_byte (record l { deframer = deframer }) (Uart.push l.decoder bit) in
    detect_by l' l'.phase frame now

abbrev pub hear_normal : Link → Uart.Decoder × Option ℕ → Link
hear_normal l (decoder, none) = record l { decoder = decoder }
hear_normal l (decoder, some byte) = record l {
  decoder = decoder;
  received = l.received ++ byte ∷ [];
}

-- One bit in `receive`.
unfoldable pub hear : Link → Phase → Bool → ℕ → Link
unfolding hear_lapm detect Uart.push
hear l (Phase.protocol m) bit now = hear_lapm l m bit now
hear l Phase.normal bit now = hear_normal l (Uart.push l.decoder bit)
hear l Phase.released bit now = l
hear l Phase.idle bit now = detect l bit now
hear l (Phase.originating deadline) bit now = detect l bit now
hear l (Phase.listening deadline) bit now = detect l bit now

unfoldable pub hear_all : Link → List Bool → ℕ → Link
unfolding hear
hear_all l [] now = l
hear_all l (bit ∷ bits) now = hear_all (hear l l.phase bit now) bits now

-- The data that LAPM has for the DTE, through the decoder if there is one. Where the decoder does not
-- return, the source has no state of the link after it, and the phase stays as it is.
abbrev pub deliver_decoded : Link → Decoded → Link
deliver_decoded l (ok (d, out)) = record l { received = out; codec = with_decoder l.codec d }
deliver_decoded l (err (failed e, out)) = record l { received = out; phase = Phase.released }
deliver_decoded l (err (hangs, out)) = record l { received = out }

unfoldable pub deliver : Link → Option Decoder → List ℕ → Link
unfolding decode
deliver l none octets = record l { received = l.received ++ octets }
deliver l (some d) octets = deliver_decoded l (decode d octets l.received)

unfoldable pub deliver_by : Link → Phase → Link
unfolding deliver State.take_received
deliver_by l (Phase.protocol m) =
    let (m', octets) = State.take_received m in
    deliver (record l { phase = Phase.protocol m' }) (decoder_of l.codec) octets
deliver_by l Phase.idle = l
deliver_by l (Phase.originating deadline) = l
deliver_by l (Phase.listening deadline) = l
deliver_by l Phase.normal = l
deliver_by l Phase.released = l

unfoldable pub deliver_lapm : Link → Link
unfolding deliver_by
deliver_lapm l = deliver_by l l.phase

unfoldable pub receive : Link → List Bool → ℕ → Link
unfolding expire hear_all set_up_codec deliver_lapm
receive l bits now = expire (deliver_lapm (set_up_codec (hear_all (expire l now) bits now))) now
