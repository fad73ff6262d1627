-- ===== src/Link/Codec.antt =====
-- softmodem-link/src/lib.rs: the V.42 bis codec of a link, once LAPM is connected.
use softmodem_rs.Prelude.{Bool, true, false, not, ◌&&◌, Option, none, some, if◌then◌else◌}
use softmodem_rs.Lapm.State.{Role, originate, answer, Lapm, originator, answerer, is_originate}
use softmodem_rs.Lapm.State
use softmodem_rs.V42bis.Negotiation.{Directions}
use softmodem_rs.V42bis.Encoder.{Encoder, encode, flush}
use softmodem_rs.V42bis.Encoder
use softmodem_rs.V42bis.Decoder.{Decoder, Decoded, decode}
use softmodem_rs.V42bis.Decoder
use softmodem_rs.Link.State.{CompressionSetup, Phase, Codec, Link, has_status}

abbrev pub directions_of : Option Directions → Option (Bool × Bool)
directions_of none = none
directions_of (some d) = some (d.transmit, d.receive)

abbrev pub equal : Bool → Bool → Bool
equal true b = b
equal false b = not b

abbrev pub same_directions : Option (Bool × Bool) → Option (Bool × Bool) → Bool
same_directions none none = true
same_directions (some (a, b)) (some (c, d)) = equal a c && equal b d
same_directions _ _ = false

-- Whether the call must end for want of the V.42 bis it requires.
abbrev pub refused : Option CompressionSetup → Option Directions → Bool
refused none agreed = false
refused (some w) agreed =
    w.required
    && not (same_directions (directions_of agreed) (some (w.offer.transmit, w.offer.receive)))

abbrev pub codec_for : Option Directions → Codec
codec_for none = record { encoder = none; decoder = none }
codec_for (some d) = record {
  encoder = if d.transmit then some (Encoder.new d.parameters) else none;
  decoder = if d.receive then some (Decoder.new d.parameters) else none;
}

abbrev pub is_none : Option Codec → Bool
is_none none = true
is_none (some c) = false

-- The codec for what was agreed, unless the call requires more.
unfoldable pub connect_codec : Link → Lapm → Link
unfolding Encoder.new Decoder.new
connect_codec l m =
    if refused l.setup.compression m.compression
    then record l { phase = Phase.released }
    else record l { codec = some (codec_for m.compression) }

-- `set_up_codec` on the phase.
unfoldable pub set_up_codec_by : Link → Phase → Link
unfolding State.status connect_codec
set_up_codec_by l (Phase.protocol m) =
    if is_none l.codec && has_status (State.status m) State.Status.connected
    then connect_codec l m
    else l
set_up_codec_by l Phase.idle = l
set_up_codec_by l (Phase.originating deadline) = l
set_up_codec_by l (Phase.listening deadline) = l
set_up_codec_by l Phase.normal = l
set_up_codec_by l Phase.released = l

unfoldable pub set_up_codec : Link → Link
unfolding set_up_codec_by
set_up_codec l = set_up_codec_by l l.phase

abbrev pub decoder_of : Option Codec → Option Decoder
decoder_of none = none
decoder_of (some c) = c.decoder

abbrev pub encoder_of : Option Codec → Option Encoder
encoder_of none = none
encoder_of (some c) = c.encoder

abbrev pub with_encoder : Option Codec → Encoder → Option Codec
with_encoder none e = none
with_encoder (some c) e = some (record c { encoder = some e })

abbrev pub with_decoder : Option Codec → Decoder → Option Codec
with_decoder none d = none
with_decoder (some c) d = some (record c { decoder = some d })
