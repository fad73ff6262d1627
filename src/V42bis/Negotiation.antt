-- ===== src/V42bis/Negotiation.antt =====
-- `Directions` of v42bis.rs: the negotiation of V.42 bis over XID, by the initiator and the
-- responder. A bit-set of directions is a number; `!x` on `u8` is `255 - x`.
pub mod Agreement
use softmodem_rs.Prelude.{
  ℕ, ◌+◌, ◌-◌, ◌*◌, ◌≡◌, Bool, true, false, not, Option, none, some, bit_and, ◌==◌, if◌then◌else◌,
}
use softmodem_rs.Prelude.Result.{Result, ok, err, ◌>>=◌}
use softmodem_rs.Xid.{Compression}
use softmodem_rs.V42bis.Parameters.{Parameters, valid, default, lower}
use mathlib.Core.Option

abbrev pub from_initiator : ℕ
from_initiator = 1

abbrev pub to_initiator : ℕ
to_initiator = 2

pub record Directions : Type 0 where
  pub transmit : Bool
  pub receive : Bool
  pub parameters : Parameters

pub data ProceduralError : Type 0 where
  procedural_error : ProceduralError

-- `u8::from(b)`
abbrev pub from_bool : Bool → ℕ
from_bool true = 1
from_bool false = 0

unfoldable pub proposal : Directions → Compression
proposal d = record {
  directions = from_bool d.transmit * from_initiator + from_bool d.receive * to_initiator;
  codewords = some d.parameters.codewords;
  max_string = some d.parameters.max_string;
}

unfoldable pub received : Compression → Result ProceduralError Parameters
received c =
    let p : Parameters = record {
      codewords = Option.get_or c.codewords default.codewords;
      max_string = Option.get_or c.max_string default.max_string;
    } in
    if valid p then ok p else err procedural_error

abbrev ours : Option Directions → ℕ
ours none = 0
ours (some d) = from_bool d.receive * from_initiator + from_bool d.transmit * to_initiator

abbrev pub no_compression : Compression
no_compression = record { directions = 0; codewords = none; max_string = none }

-- The reply to a proposal with some common direction.
abbrev agree : Directions → Parameters → ℕ → Compression × Option Directions
agree offer proposed directions =
    let parameters = lower proposed offer.parameters in
    (
      record {
        directions = directions;
        codewords = some parameters.codewords;
        max_string = some parameters.max_string;
      },
      some (record {
        transmit = not (bit_and directions to_initiator == 0);
        receive = not (bit_and directions from_initiator == 0);
        parameters = parameters;
      }),
    )

abbrev answer_offer : Option Directions → Parameters → ℕ → Compression × Option Directions
answer_offer none proposed directions = (no_compression, none)
answer_offer (some offer) proposed directions =
    if directions == 0 then (no_compression, none) else agree offer proposed directions

unfoldable pub answer :
    Option Directions → Compression → Result ProceduralError (Compression × Option Directions)
answer offer theirs = do
  proposed ← received theirs
  ok (answer_offer offer proposed (bit_and theirs.directions (ours offer)))

unfoldable pub conclude :
    Directions → Option Compression → Result ProceduralError (Option Directions)
unfolding proposal
conclude d none = ok none
conclude d (some reply) =
    let agreed = (do
      theirs ← received reply
      ok (
          some (record {
            transmit = not (bit_and reply.directions from_initiator == 0);
            receive = not (bit_and reply.directions to_initiator == 0);
            parameters = lower theirs d.parameters;
          }))) in
    if reply.directions == 0
    then ok none
    else if not (bit_and reply.directions (255 - (proposal d).directions) == 0)
    then err procedural_error
    else agreed
