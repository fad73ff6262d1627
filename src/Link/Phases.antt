-- ===== src/Link/Phases.antt =====
-- The phases that a link of lib.rs goes through: in one direction, and never to plain characters where
-- V.42 is required.
pub mod Starting
pub mod Sending
pub mod Hearing
use softmodem_rs.Prelude.{
  ℕ, zero, suc, ◌+◌, ◌≤◌, ◌<◌, ◌≡◌, refl, ap, sym, subst, ◌∙◌, ◌⊎◌, inl, inr, Bool, true, false,
  not, ◌&&◌, ◌||◌, Bool-cases, Option-cases, Option, none, some, List, [], ◌∷◌, if_cases,
  if◌then◌else◌, arith, length, ltb, leb,
}
use softmodem_rs.Prelude.Result.{ok, err}
use softmodem_rs.Lapm.State.{Role, originate, answer, Lapm, originator, answerer}
use softmodem_rs.Lapm.State
use softmodem_rs.Lapm.Receive
use softmodem_rs.Detect.{Adp, odp, adp}
use softmodem_rs.Uart
use softmodem_rs.Hdlc
use softmodem_rs.V42bis.Encoder.{Encoder, encode}
use softmodem_rs.V42bis.Decoder.{Decoder, Decoded, decode}
use softmodem_rs.Link.State.{
  offer, second, lowest_rate, is_idle, Setup, Phase, Link, enter_protocol, fall_back, start_by,
  start, expire_by, expire, has_status, enough_flags, adp_repeats,
}
use softmodem_rs.Link.Codec.{
  set_up_codec_by, set_up_codec, refused, connect_codec, is_none, decoder_of, encoder_of,
}
use softmodem_rs.Link.Send.{
  send_lapm, send_by, send, flush_codec, protocol_turn, turn, fill, transmit,
}
use softmodem_rs.Link.Receive.{
  is_some, receive_some, hear_frame, hear_lapm, answer_adp, detect_by, detect, hear_byte,
  hear_normal, hear, hear_all, deliver_by, deliver_decoded, deliver, deliver_lapm, receive,
}
use softmodem_rs.Link.Phases.Starting.{Goes, goes, here, Goes-trans, start-Goes}
use softmodem_rs.Link.Phases.Sending.{send-Goes, transmit-Goes}
use softmodem_rs.Link.Phases.Hearing.{receive-Goes}

-- What the modem does with a link.
pub data Operation : Type 0 where
  starts : (ℕ → ℕ) → ℕ → ℕ → Operation
  sends : List ℕ → Operation
  transmits : ℕ → ℕ → Operation
  receives : List Bool → ℕ → Operation

unfoldable pub apply : Link → Operation → Link
unfolding start send transmit receive
apply l (starts two_frames bit_rate now) = start two_frames l bit_rate now
apply l (sends bytes) = send l bytes
apply l (transmits max' now) = (transmit l max' now).0
apply l (receives bits now) = receive l bits now

unfoldable pub apply_all : Link → List Operation → Link
unfolding apply
apply_all l [] = l
apply_all l (o ∷ os) = apply_all (apply l o) os

apply-Goes : (l : Link) (o : Operation) → Goes l (apply l o)
unfolding apply
apply-Goes l (starts two_frames bit_rate now) = start-Goes two_frames l bit_rate now
apply-Goes l (sends bytes) = send-Goes l bytes
apply-Goes l (transmits max' now) = transmit-Goes l max' now
apply-Goes l (receives bits now) = receive-Goes l bits now

-- Whatever the modem does with a link, and in whatever order, its phase goes one way only: from idle
-- to detection, to LAPM, to the end. Plain characters follow idle or detection only, and only if
-- V.42 is not required; nothing follows plain characters or the end. Whether V.42 is required
-- does not change.
pub apply_all-Goes : (l : Link) (os : List Operation) → Goes l (apply_all l os)
unfolding apply_all
apply_all-Goes l [] = here
apply_all-Goes l (o ∷ os) = Goes-trans (apply-Goes l o) (apply_all-Goes (apply l o) os)
