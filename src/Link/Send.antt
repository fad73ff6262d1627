-- ===== src/Link/Send.antt =====
-- softmodem-link/src/lib.rs: what a link does with its DTE's bytes, and the bits it hands the data pump.
use softmodem_rs.Prelude.{
  ℕ, zero, suc, ◌+◌, min, Bool, not, ◌&&◌, ◌||◌, Option, none, some, List, [], ◌∷◌, ◌++◌, ◌==◌, ltb,
  if◌then◌else◌, length, take, drop,
}
use softmodem_rs.Lapm.State.{Role, originate, answer, Lapm, originator, answerer, is_originate}
use softmodem_rs.Lapm.State
use softmodem_rs.Lapm.Transmit.{next_frame}
use softmodem_rs.Detect.{Adp, push_odp, push_adp}
use softmodem_rs.Uart
use softmodem_rs.Hdlc
use softmodem_rs.V42bis.Encoder.{Encoder, encode, flush}
use softmodem_rs.Link.State.{adp_repeats, Phase, Codec, Link, expire}
use softmodem_rs.Link.Codec.{set_up_codec, encoder_of, with_encoder}

abbrev pub frames : List ℕ → List Bool
frames [] = []
frames (b ∷ bytes) = Uart.frame b ++ frames bytes

-- `send` to LAPM, through the encoder if there is one.
unfoldable pub send_lapm : Link → Lapm → Option Encoder → List ℕ → Link
unfolding State.send encode
send_lapm l m none bytes = record l { phase = Phase.protocol (State.send m bytes) }
send_lapm l m (some e) bytes =
    let (e', octets) = encode e bytes in
    record l { phase = Phase.protocol (State.send m octets); codec = with_encoder l.codec e' }

-- `send` on the phase, after `set_up_codec`.
unfoldable pub send_by : Link → Phase → List ℕ → Link
unfolding send_lapm
send_by l (Phase.protocol m) bytes = send_lapm l m (encoder_of l.codec) bytes
send_by l Phase.normal bytes = record l { tx = l.tx ++ frames bytes }
send_by l Phase.idle bytes = l
send_by l (Phase.originating deadline) bytes = l
send_by l (Phase.listening deadline) bytes = l
send_by l Phase.released bytes = l

unfoldable pub send : Link → List ℕ → Link
unfolding set_up_codec send_by
send l bytes = let l' = set_up_codec l in send_by l' l'.phase bytes

unfoldable pub take_received : Link → Link × List ℕ
take_received l = (record l { received = [] }, l.received)

unfoldable pub carrier_lost : Link → Link
unfolding Uart.reset
carrier_lost l = record l { decoder = Uart.reset l.decoder }

-- What a turn of `transmit` flushes from the encoder into LAPM, if nothing is queued there.
unfoldable pub flush_codec : Lapm → Option Codec → Option Encoder → Lapm × Option Codec
unfolding State.send flush
flush_codec m codec none = (m, codec)
flush_codec m codec (some e) =
    let (e', octets) = flush e in
    if length m.queue == 0 then (State.send m octets, with_encoder codec e') else (m, codec)

abbrev pub push_next : Option (List ℕ) → List Bool → List Bool
push_next none tx = Hdlc.push_flag tx
push_next (some frame) tx = Hdlc.push_frame frame tx

-- A turn of the loop of `transmit` over LAPM, after the ADPs.
unfoldable pub protocol_turn : Link → Lapm → ℕ → Link
unfolding flush_codec next_frame
protocol_turn l m now =
    let tx = if ltb 0 l.adps then Hdlc.push_flag l.tx else l.tx in
    let (m1, codec) = flush_codec m l.codec (encoder_of l.codec) in
    let (m2, frame) = next_frame m1 now in
    record l { adps = 0; tx = push_next frame tx; codec = codec; phase = Phase.protocol m2 }

-- A turn of the loop, or its end.
unfoldable pub turn : Link → Phase → ℕ → Option Link
unfolding protocol_turn push_odp push_adp
turn l (Phase.originating deadline) now =
    if ltb now deadline then some (record l { tx = push_odp l.tx }) else none
turn l (Phase.protocol m) now =
    if ltb 0 l.adps && (ltb l.adps adp_repeats || not l.flags_heard)
    then some (record l { tx = push_adp l.tx Adp.lapm; adps = l.adps + 1 })
    else some (protocol_turn l m now)
turn l Phase.idle now = none
turn l (Phase.listening deadline) now = none
turn l Phase.normal now = none
turn l Phase.released now = none

-- The loop of `transmit`: every turn puts a bit at least on the queue.
unfoldable pub fill : ℕ → Link → ℕ → ℕ → Link
unfolding turn
fill zero l max' now = l
fill (suc fuel) l max' now =
    if ltb (length l.tx) max'
    then (elim (turn l l.phase now) [ none ↦ l | some l' ↦ fill fuel l' max' now ])
    else l

unfoldable pub transmit : Link → ℕ → ℕ → Link × List Bool
unfolding fill expire
transmit l max' now =
    let l' = fill max' (expire l now) max' now in
    let n = min max' (length l'.tx) in (record l' { tx = drop n l'.tx }, take n l'.tx)
