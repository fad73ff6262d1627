-- ===== src/Transport/Reorder/Order.antt =====
-- What `drain` of reorder.rs lets out, against a plain description: the run of packets with no number
-- missing.
use softmodem_rs.Prelude.{
  ℕ, zero, suc, ◌+◌, ◌≤◌, ◌≡◌, refl, ap, ap₂, sym, subst, ◌∙◌, true, false, Bool-cases, inl, inr,
  none, some, List, [], ◌∷◌, ◌++◌, ◌==◌, ==_iff, if◌then◌else◌, length, append_assoc, append-nil,
  arith,
}
use softmodem_rs.Transport.Reorder.{
  Packet, Held, Position, remove, silence, gap_before, after, drain_from,
}

-- The keys rise, and the first is `least` at least.
abbrev pub IsSorted : ℕ → Held → Type 0
IsSorted least [] = Unit
IsSorted least ((k, p) ∷ held) = (least ≤ k) × IsSorted (k + 1) held

-- The packets that go on from a number with none missing, and the others.
unfoldable pub ready : ℕ → Held → Held
ready s [] = []
ready s ((k, p) ∷ held) = let rest = ready (s + 1) held in if k == s then (k, p) ∷ rest else []

unfoldable pub waiting : ℕ → Held → Held
waiting s [] = []
waiting s ((k, p) ∷ held) =
    let rest = waiting (s + 1) held in if k == s then rest else (k, p) ∷ held

-- What they sound like from a position on, and the position after them.
unfoldable pub frames : Position → Held → List (List ℕ)
frames p [] = []
frames p ((k, packet) ∷ held) =
    silence (gap_before p packet) ++ packet.1 ∷ frames (after p packet) held

unfoldable pub after_all : Position → Held → Position
after_all p [] = p
after_all p ((k, packet) ∷ held) = after_all (after p packet) held

pub IsSorted-le : (a b : ℕ) (held : Held) → a ≤ b → IsSorted b held → IsSorted a held
IsSorted-le a b [] le h = tt
IsSorted-le a b ((k, p) ∷ held) le (h, hs) = (omega arith, hs)

-- No packet is lost between the two.
pub ready-waiting : (s : ℕ) (held : Held) → ready s held ++ waiting s held ≡ held
unfolding ready waiting
ready-waiting s [] = refl
ready-waiting s ((k, p) ∷ held) = ground (arith, ready-waiting (s + 1) held)

remove-later : (s : ℕ) (held : Held) → IsSorted (s + 1) held → remove s held ≡ none
unfolding remove
remove-later s [] h = refl
remove-later s ((k, p) ∷ held) (h, hs) =
    ground (arith, remove-later s held (IsSorted-le (s + 1) (k + 1) held (omega arith) hs))

remove-first : (s : ℕ) (p : Packet) (held : Held) → remove s ((s, p) ∷ held) ≡ some (p, held)
unfolding remove
remove-first s p held = ground arith

drain_from-stop :
    (fuel : ℕ) (p : Position) (held : Held) (out : List (List ℕ))
    → remove p.sequence held ≡ none
    → drain_from fuel p held out ≡ ((p, held), out)
unfolding drain_from
drain_from-stop zero p held out e = refl
drain_from-stop (suc fuel) p held out e = rw (e, drain_from) refl

drain_from-go :
    (fuel : ℕ) (p : Position) (packet : Packet) (held : Held) (out : List (List ℕ))
    → drain_from (suc fuel) p ((p.sequence, packet) ∷ held) out
      ≡ drain_from fuel
          (after p packet)
          held
          ((out ++ silence (gap_before p packet)) ++ packet.1 ∷ [])
unfolding drain_from
drain_from-go fuel p packet held out = rw (remove-first p.sequence packet held, drain_from) refl

ready-first :
    (s k : ℕ) (p : Packet) (held : Held)
    → (k == s) ≡ true
    → (ready s ((k, p) ∷ held) ≡ (k, p) ∷ ready (s + 1) held)
      × (waiting s ((k, p) ∷ held) ≡ waiting (s + 1) held)
unfolding ready waiting
ready-first s k p held e = (rw (e), rw (e))

ready-none :
    (s k : ℕ) (p : Packet) (held : Held)
    → (k == s) ≡ false
    → (ready s ((k, p) ∷ held) ≡ []) × (waiting s ((k, p) ∷ held) ≡ (k, p) ∷ held)
unfolding ready waiting
ready-none s k p held e = (rw (e), rw (e))

abbrev pub Drained : Type 0
Drained = (Position × Held) × List (List ℕ)

-- The run of packets is let out, and the others stay.
abbrev pub let_out : Position → List (List ℕ) → Held → Held → Drained
let_out p out run others = ((after_all p run, others), out ++ frames p run)

let_out-nil :
    (p : Position) (out : List (List ℕ)) (others : Held)
    → ((p, others), out) ≡ let_out p out [] others
unfolding after_all frames
let_out-nil p out others = ap (λ o. ((p, others), o)) (sym (append-nil out))

let_out-cons :
    (p : Position) (out : List (List ℕ)) (k : ℕ) (packet : Packet) (run others : Held)
    → let_out (after p packet) ((out ++ silence (gap_before p packet)) ++ packet.1 ∷ []) run others
      ≡ let_out p out ((k, packet) ∷ run) others
unfolding after_all frames
let_out-cons p out k packet run others =
    let tail = frames (after p packet) run in
    let gap = silence (gap_before p packet) in
    ap (λ o. ((after_all (after p packet) run, others), o))
      (append_assoc (out ++ gap) (packet.1 ∷ []) tail ∙ append_assoc out gap (packet.1 ∷ tail))

ready-nil :
    (p : Position) (out : List (List ℕ))
    → let_out p out [] [] ≡ let_out p out (ready p.sequence []) (waiting p.sequence [])
unfolding ready waiting
ready-nil p out = refl

-- With a turn for each packet held, and the packets in the order of their numbers, none before the
-- next one: what the loop of `drain` lets out is the run of packets from that number on with none
-- missing, each after the silence that its timestamp asks for; the others stay, and the position is
-- the one after the run.
pub drain_from-ready :
    (fuel : ℕ) (p : Position) (held : Held) (out : List (List ℕ))
    → length held ≤ fuel
    → IsSorted p.sequence held
    → drain_from fuel p held out ≡ let_out p out (ready p.sequence held) (waiting p.sequence held)
drain_from-ready fuel p [] out le h =
    drain_from-stop fuel p [] out (remove-later p.sequence [] tt)
    ∙ let_out-nil p out []
    ∙ (ready-nil p out)
drain_from-ready zero p (entry ∷ held) out le h = absurd (omega arith)
drain_from-ready (suc fuel) p ((k, packet) ∷ held) out le (h, hs) =
    elim (Bool-cases (k == p.sequence)) [
      | inl e ↦
          let same : k ≡ p.sequence = (==_iff k p.sequence).0 e in
          let (run, others) = ready-first p.sequence k packet held e in
          let sorted : IsSorted (p.sequence + 1) held =
            subst (λ x. IsSorted (x + 1) held) same hs in
          let more = ((out ++ silence (gap_before p packet)) ++ packet.1 ∷ []) in
          ap (λ x. drain_from (suc fuel) p ((x, packet) ∷ held) out) same
          ∙ drain_from-go fuel p packet held out
          ∙ drain_from-ready fuel (after p packet) held more (omega arith) sorted
          ∙ let_out-cons p out k packet (ready (p.sequence + 1) held)
              (waiting (p.sequence + 1) held)
          ∙ ap₂ (let_out p out) (sym run) (sym others)
      | inr e ↦
          let (none_ready, all_wait) = ready-none p.sequence k packet held e in
          let later : IsSorted (p.sequence + 1) ((k, packet) ∷ held) = (ground arith, hs) in
          drain_from-stop (suc fuel) p ((k, packet) ∷ held) out
            (remove-later p.sequence ((k, packet) ∷ held) later)
          ∙ let_out-nil p out ((k, packet) ∷ held)
          ∙ ap₂ (let_out p out) (sym none_ready) (sym all_wait)
    ]
