-- ===== src/V42bis/Negotiation/Agreement.antt =====
-- The two ends of a negotiation come to the same parameters and to opposite directions.
use softmodem_rs.Prelude.{
  ◌≡◌, ◌≤◌, ◌<◌, refl, Bool, true, false, ◌&&◌, ◌||◌, Option, none, some, arith, if◌then◌else◌, ◌+◌,
  ◌*◌, bit_and, ◌-◌, ◌==◌, not, holds_below, holds_below-true,
}
use softmodem_rs.Prelude.Result.{ok}
use softmodem_rs.Xid.{Compression}
use softmodem_rs.V42bis.Parameters.{Parameters, valid, lower}
use softmodem_rs.V42bis.Negotiation.{
  Directions, proposal, received, answer, conclude, no_compression, from_bool,
}
use mathlib.Core.Option

-- What two offers have in common, as the initiator sees it.
abbrev pub common : Directions → Directions → Option Directions
common a b =
    let transmit = a.transmit && b.receive in
    let receive = a.receive && b.transmit in
    if transmit || receive
    then some (record {
      transmit = transmit;
      receive = receive;
      parameters = lower a.parameters b.parameters;
    })
    else none

-- The same as the other end sees it.
abbrev pub mirror : Directions → Directions
mirror d = record { transmit = d.receive; receive = d.transmit; parameters = d.parameters }

-- The responder's reply on the wire: the common directions with the lower values, or nothing.
abbrev pub reply_to : Directions → Directions → Compression
reply_to a b = elim (common a b) [ none ↦ no_compression | some d ↦ proposal d ]

received-proposal :
    (d : Directions) → valid d.parameters ≡ true → received (proposal d) ≡ ok d.parameters
unfolding received proposal
received-proposal d h = ground arith

module _ (p q : Parameters) (hp : valid p ≡ true) (hq : valid q ≡ true) where
  abbrev caller : Bool → Bool → Directions
  caller t r = record { transmit = t; receive = r; parameters = p }

  abbrev answerer : Bool → Bool → Directions
  answerer t r = record { transmit = t; receive = r; parameters = q }

  lower-valid : valid (lower p q) ≡ true
  lower-valid = ground arith

  answer_parts :
      (at ar bt br : Bool)
      → answer (some (answerer bt br)) (proposal (caller at ar))
        ≡ ok (
          reply_to (caller at ar) (answerer bt br),
          Option.map mirror (common (caller at ar) (answerer bt br)),
        )
  unfolding answer
  answer_parts at ar bt br =
      rw (received-proposal (caller at ar) hp) (unfold proposal in ground arith)

  conclude_parts :
      (at ar bt br : Bool)
      → conclude (caller at ar) (some (reply_to (caller at ar) (answerer bt br)))
        ≡ ok (common (caller at ar) (answerer bt br))
  unfolding conclude
  conclude_parts at ar bt br = ground (
    arith,
    received-proposal (record { transmit = at && br; receive = ar && bt; parameters = lower p q })
        lower-valid,
  )

-- Both ends offer values that § 5.1 allows: the responder's answer is the common directions with
-- the lower values, and the initiator concludes the same from that answer, each end in its own
-- directions.
pub negotiation :
    (a b : Directions)
    → valid a.parameters ≡ true
    → valid b.parameters ≡ true
    → (answer (some b) (proposal a) ≡ ok (reply_to a b, Option.map mirror (common a b)))
      × (conclude a (some (reply_to a b)) ≡ ok (common a b))
negotiation a b h k = (
  answer_parts a.parameters b.parameters h k a.transmit a.receive b.transmit b.receive,
  conclude_parts a.parameters b.parameters h k a.transmit a.receive b.transmit b.receive,
)

-- What the reply's bits may be where none is outside the proposal.
proposed_table :
    (t r : Bool)
    → holds_below 256 (λ x.
      not (bit_and x (255 - (from_bool t * 1 + from_bool r * 2)) == 0)
      || ((bit_and x 1 == 0) || t) && ((bit_and x 2 == 0) || r))
      ≡ true
unfolding holds_below
proposed_table true true = refl
proposed_table true false = refl
proposed_table false true = refl
proposed_table false false = refl

-- Whatever the reply, an initiator concludes only directions that it proposed, and valid values
-- that are not above those it proposed.
pub conclude_sound :
    (a d : Directions) (reply : Compression)
    → reply.directions < 256
    → valid a.parameters ≡ true
    → conclude a (some reply) ≡ ok (some d)
    → (d.transmit ≡ true → a.transmit ≡ true)
      × (d.receive ≡ true → a.receive ≡ true)
      × (valid d.parameters ≡ true)
      × (d.parameters.codewords ≤ a.parameters.codewords)
      × (d.parameters.max_string ≤ a.parameters.max_string)
unfolding conclude received proposal
conclude_sound a d reply h k e =
    let bits = holds_below-true 256 _ reply.directions (proposed_table a.transmit a.receive) h in
    (λ t. ground (arith, bits), λ r. ground (arith, bits), ground arith, ground arith, ground arith)
