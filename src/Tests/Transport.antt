-- ===== src/Tests/Transport.antt =====
-- The A-law codec and the reordering of packets at concrete inputs.
use softmodem_rs.Prelude.{ℕ, ◌*◌, ◌≤◌, ◌≡◌, refl, [], ◌∷◌, some, inr, ◌⊎◌, arith}
use softmodem_rs.Prelude.Ints.{negsuc}
use softmodem_rs.Transport.Alaw.{encode, decode}
use softmodem_rs.Transport.Alaw.Error.{size, like, distance, decode-encode}
use softmodem_rs.Transport.Reorder.{Position, Reorder, Held, drain_from, push}
use softmodem_rs.Transport.Reorder.Order.{ready, waiting, let_out, drain_from-ready}
use softmodem_rs.Transport.Reorder.Window.{IsReorder, Keeps, push-IsReorder}

decode-encode_example :
    (m : ℕ) × (decode (encode (negsuc 1233)) ≡ like (negsuc 1233) m)
    × ((distance (size (negsuc 1233)) m ≤ 8)
        ⊎ (distance (size (negsuc 1233)) m * 32 ≤ size (negsuc 1233)))
decode-encode_example = decode-encode (negsuc 1233) (omega arith)

abbrev position : Position
position = record { sequence = 5; timestamp = 100 }

-- The packets 5 and 6, then one missing.
abbrev packets : Held
packets = (5, (100, 1 ∷ 2 ∷ [])) ∷ (6, (105, 3 ∷ [])) ∷ (8, (110, 4 ∷ [])) ∷ []

drain_from-ready_example :
    drain_from 3 position packets [] ≡ let_out position [] (ready 5 packets) (waiting 5 packets)
drain_from-ready_example = drain_from-ready 3 position packets [] (omega arith) (ground arith)

-- One packet short of its window, and the packet 5 missing.
abbrev held_up : Reorder
held_up = record {
  window = 2;
  next = some position;
  held = (6, (105, 3 ∷ [])) ∷ (8, (110, 4 ∷ [])) ∷ [];
}

held_up-IsReorder : IsReorder held_up
held_up-IsReorder = (omega arith, inr (refl, (position, refl, ground arith)))

push-IsReorder_example : Keeps 2 (push held_up 9 115 (5 ∷ []) [])
push-IsReorder_example = push-IsReorder held_up 9 115 (5 ∷ []) [] held_up-IsReorder
