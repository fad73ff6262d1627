-- ===== src/Tests/Negotiation.antt =====
-- The negotiation of v42bis.rs at concrete inputs.
use softmodem_rs.Prelude.{◌≡◌, ◌≤◌, true, false, some, arith, refl}
use softmodem_rs.Prelude.Result.{ok}
use softmodem_rs.Xid.{Compression}
use softmodem_rs.V42bis.Parameters.{Parameters, valid}
use softmodem_rs.V42bis.Negotiation.{Directions, proposal, received, answer, conclude}
use softmodem_rs.V42bis.Negotiation.Agreement.{
  common, mirror, reply_to, negotiation, conclude_sound,
}
use mathlib.Core.Option

abbrev large : Parameters
large = record { codewords = 2048; max_string = 32 }

abbrev small : Parameters
small = record { codewords = 512; max_string = 6 }

abbrev initiator : Directions
initiator = record { transmit = true; receive = true; parameters = large }

abbrev responder : Directions
responder = record { transmit = false; receive = true; parameters = small }

negotiation_example :
    (answer (some responder) (proposal initiator)
      ≡ ok (reply_to initiator responder, Option.map mirror (common initiator responder)))
    × (conclude initiator (some (reply_to initiator responder)) ≡ ok (common initiator responder))
negotiation_example = negotiation initiator responder refl refl

abbrev concluded : Directions
concluded = record { transmit = true; receive = false; parameters = small }

abbrev reply : Compression
reply = record { directions = 1; codewords = some 512; max_string = some 6 }

conclude_sound_example :
    (concluded.transmit ≡ true → initiator.transmit ≡ true)
    × (concluded.receive ≡ true → initiator.receive ≡ true)
    × (valid concluded.parameters ≡ true)
    × (concluded.parameters.codewords ≤ initiator.parameters.codewords)
    × (concluded.parameters.max_string ≤ initiator.parameters.max_string)
unfolding conclude received
conclude_sound_example = conclude_sound initiator concluded reply (omega arith) refl refl
