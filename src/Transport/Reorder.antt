-- ===== src/Transport/Reorder.antt =====
-- softmodem-transport/src/reorder.rs: puts RTP packets back in order. The map of held packets is a
-- list in the order of its keys; the sequence numbers that go on past 16 bits do not wrap round. The
-- number of samples in a packet is below 2 ^ 32.
pub mod Order
pub mod Window
use softmodem_rs.Prelude.{
  ℕ, zero, suc, ◌+◌, ◌-◌, ◌*◌, ◌%◌, ◌^◌, Bool, not, ◌&&◌, Option, none, some, List, [], ◌∷◌, ◌++◌,
  ◌==◌, ltb, leb, if◌then◌else◌, length, replicate,
}

abbrev pub max_gap_samples : ℕ
max_gap_samples = 8000

abbrev pub resync_distance : ℕ
resync_distance = 3000

-- A timestamp and the samples.
abbrev pub Packet : Type 0
Packet = ℕ × List ℕ

abbrev pub Held : Type 0
Held = List (ℕ × Packet)

pub record Position : Type 0 where
  pub sequence : ℕ
  pub timestamp : ℕ

pub record Reorder : Type 0 where
  pub window : ℕ
  pub next : Option Position
  pub held : Held

unfoldable pub new : ℕ → Reorder
new window = record { window = window; next = none; held = [] }

-- `BTreeMap::insert`
unfoldable pub insert : ℕ → Packet → Held → Held
insert key packet [] = (key, packet) ∷ []
insert key packet ((k, p) ∷ held) =
    let rest = insert key packet held in
    if ltb key k
    then (key, packet) ∷ (k, p) ∷ held
    else if key == k
    then (key, packet) ∷ held
    else (k, p) ∷ rest

abbrev keep : ℕ × Packet → Option (Packet × Held) → Option (Packet × Held)
keep entry none = none
keep entry (some (packet, held)) = some (packet, entry ∷ held)

-- `BTreeMap::remove`: the value and the map without it.
unfoldable pub remove : ℕ → Held → Option (Packet × Held)
remove key [] = none
remove key ((k, p) ∷ held) =
    let rest = remove key held in if key == k then some (p, held) else keep (k, p) rest

-- The frame of silence that fills a gap, if it is filled.
abbrev pub silence : ℕ → List (List ℕ)
silence gap = if ltb 0 gap && leb gap max_gap_samples then replicate gap 0 ∷ [] else []

abbrev pub gap_before : Position → Packet → ℕ
gap_before p (timestamp, samples) = (timestamp + 2 ^ 32 - p.timestamp) % 2 ^ 32

abbrev pub after : Position → Packet → Position
after p (timestamp, samples) = record {
  sequence = p.sequence + 1;
  timestamp = (timestamp + length samples) % 2 ^ 32;
}

-- The loop of `drain`: every turn takes a packet out of the map.
unfoldable pub drain_from : ℕ → Position → Held → List (List ℕ) → (Position × Held) × List (List ℕ)
unfolding remove
drain_from zero p held out = ((p, held), out)
drain_from (suc fuel) p held out = elim (remove p.sequence held) [
  | none ↦ ((p, held), out)
  | some (packet, rest) ↦
      drain_from fuel (after p packet) rest
        ((out ++ silence (gap_before p packet)) ++ packet.1 ∷ [])
]

abbrev drained : Reorder → (Position × Held) × List (List ℕ) → Reorder × List (List ℕ)
drained r ((p, held), out) = (record r { next = some p; held = held }, out)

unfoldable pub drain : Reorder → List (List ℕ) → Reorder × List (List ℕ)
unfolding drain_from
drain r out = elim r.next [
  | none ↦ (r, out)
  | some p ↦ drained r (drain_from (length r.held) p r.held out)
]

abbrev pub skip_by : Reorder → Option Position → Held → Reorder
skip_by r (some p) ((key, packet) ∷ held) = record r { next = some (record p { sequence = key }) }
skip_by r (some p) [] = r
skip_by r none held = r

abbrev pub skip_to_first_held : Reorder → Reorder
skip_to_first_held r = skip_by r r.next r.held

-- The loop of `flush` and of `push`: while more is held than a limit, skip and drain. Every turn
-- takes a packet at least.
unfoldable pub give_up : ℕ → ℕ → Reorder → List (List ℕ) → Reorder × List (List ℕ)
unfolding drain
give_up zero limit r out = (r, out)
give_up (suc fuel) limit r out =
    let (r', out') = drain (skip_to_first_held r) out in
    let rest = give_up fuel limit r' out' in if ltb limit (length r.held) then rest else (r, out)

unfoldable pub flush : Reorder → List (List ℕ) → Reorder × List (List ℕ)
unfolding give_up
flush r out = give_up (length r.held) 0 r out

-- A packet too far away: what was held goes, and the stream starts anew with this one.
unfoldable pub resync : Reorder → ℕ → Packet → List (List ℕ) → Reorder × List (List ℕ)
unfolding flush drain insert
resync r sequence packet out =
    let (r', out') = flush r out in
    let p : Position = record { sequence = sequence; timestamp = packet.0 } in
    drain (record r' { next = some p; held = insert sequence packet r'.held }) out'

unfoldable pub accept : Reorder → ℕ → Packet → List (List ℕ) → Reorder × List (List ℕ)
unfolding insert drain give_up
accept r key packet out =
    let (r', out') = drain (record r { held = insert key packet r.held }) out in
    give_up (length r'.held) r'.window r' out'

abbrev position : Option Position → ℕ → ℕ → Position
position none sequence timestamp = record { sequence = sequence; timestamp = timestamp }
position (some p) sequence timestamp = p

-- The distance in 16 bits is `ahead`, or `ahead - 2 ^ 16` where that is negative.
unfoldable pub push : Reorder → ℕ → ℕ → List ℕ → List (List ℕ) → Reorder × List (List ℕ)
unfolding resync accept
push r sequence timestamp samples out =
    let p = position r.next sequence timestamp in
    let r' : Reorder = record r { next = some p } in
    let ahead = (sequence + 2 ^ 16 - p.sequence % 2 ^ 16) % 2 ^ 16 in
    let packet : Packet = (timestamp, samples) in
    if ltb ahead (2 ^ 15)
    then (if ltb resync_distance ahead
        then resync r' sequence packet out
        else accept r' (p.sequence + ahead) packet out)
    else if ltb resync_distance (2 ^ 16 - ahead)
    then resync r' sequence packet out
    else (r', out)
