-- ===== src/Transport/Reorder/Window.antt =====
-- The packets that reorder.rs holds: in the order of their numbers, none of them due, and no more of
-- them than the window allows.
use softmodem_rs.Prelude.{
  ℕ, zero, suc, ◌+◌, ◌-◌, ◌%◌, ◌^◌, ◌≤◌, ◌<◌, ◌≡◌, refl, ap, ap₂, sym, subst, ◌∙◌, Bool-cases, ◌⊎◌,
  inl, inr, none, some, List, [], ◌∷◌, ◌==◌, ==_iff, ltb, if_cases, length, length-append, arith,
}
use softmodem_rs.Transport.Reorder.{
  Packet, Held, Position, Reorder, insert, after, drained, drain, skip_by, skip_to_first_held,
  give_up, flush, resync, accept, position, push, resync_distance,
}
use softmodem_rs.Transport.Reorder.Order.{
  IsSorted, IsSorted-le, ready, waiting, ready-waiting, after_all, let_out, drain_from-ready,
}

insert-IsSorted :
    (least key : ℕ) (packet : Packet) (held : Held)
    → least ≤ key
    → IsSorted least held
    → IsSorted least (insert key packet held)
unfolding insert
insert-IsSorted least key packet [] le h = (le, tt)
insert-IsSorted least key packet ((k, p) ∷ held) le (h, hs) = elim (Bool-cases (ltb key k)) [
  | inl lt ↦ rw lt (le, (ground arith, hs))
  | inr ge ↦ elim (Bool-cases (key == k)) [
    | inl same ↦
        rw ge (rw same (le, subst (λ x. IsSorted (x + 1) held) (sym ((==_iff key k).0 same)) hs))
    | inr other ↦ rw ge (rw other (h, insert-IsSorted (k + 1) key packet held (ground arith) hs))
  ]
]

length-insert :
    (key : ℕ) (packet : Packet) (held : Held) → length (insert key packet held) ≤ length held + 1
unfolding insert
length-insert key packet [] = omega arith
length-insert key packet ((k, p) ∷ held) = ground (arith, length-insert key packet held)

waiting-IsSorted :
    (s : ℕ) (held : Held)
    → IsSorted s held
    → IsSorted (s + length (ready s held) + 1) (waiting s held)
unfolding ready waiting
waiting-IsSorted s [] h = tt
waiting-IsSorted s ((k, p) ∷ held) (h, hs) = elim (Bool-cases (k == s)) [
  | inl e ↦
      let same : k ≡ s = (==_iff k s).0 e in
      let rest = waiting-IsSorted (s + 1) held (subst (λ x. IsSorted (x + 1) held) same hs) in
      rw e (subst (λ n. IsSorted n (waiting (s + 1) held)) (omega arith) rest)
  | inr e ↦ rw e (ground arith, hs)
]

after_all-sequence :
    (p : Position) (run : Held) → (after_all p run).sequence ≡ p.sequence + length run
unfolding after_all
after_all-sequence p [] = omega arith
after_all-sequence p ((k, packet) ∷ run) = omega (arith, after_all-sequence (after p packet) run)

ready-due : (s : ℕ) (packet : Packet) (held : Held) → 1 ≤ length (ready s ((s, packet) ∷ held))
unfolding ready
ready-due s packet held = ground arith

-- The next packet is known, and those held come after it.
abbrev pub IsOpen : ℕ → Reorder → Type 0
IsOpen window r =
    (r.window ≡ window) × ((p : Position) × (r.next ≡ some p) × IsSorted (p.sequence + 1) r.held)

-- A drain keeps the order and lets as many go as are ready.
drain-IsOpen :
    (r : Reorder) (p : Position) (out : List (List ℕ))
    → r.next ≡ some p
    → IsSorted p.sequence r.held
    → IsOpen r.window (drain r out).0
      × (length (drain r out).0.held + length (ready p.sequence r.held) ≡ length r.held)
unfolding drain
drain-IsOpen r p out e h =
    let run = ready p.sequence r.held in
    let left = waiting p.sequence r.held in
    let all = drain_from-ready (length r.held) p r.held out (omega arith) h in
    let whole : (drain r out) ≡ drained r (let_out p out run left) =
      rw (e, drain) (ap (drained r) all) in
    let sorted : IsSorted ((after_all p run).sequence + 1) left =
      subst (λ n. IsSorted (n + 1) left) (sym (after_all-sequence p run))
        (waiting-IsSorted p.sequence r.held h) in
    let count : length left + length run ≡ length r.held =
      omega (arith, ap length (ready-waiting p.sequence r.held), length-append run left) in
    subst
      (λ (x : Reorder × List (List ℕ)).
        IsOpen r.window x.0 × (length x.0.held + length run ≡ length r.held))
      (sym whole) ((refl, (after_all p run, refl, sorted)), count)

-- A packet that is due goes.
drain-due :
    (r : Reorder) (p : Position) (packet : Packet) (held : Held) (out : List (List ℕ))
    → r.next ≡ some p
    → r.held ≡ (p.sequence, packet) ∷ held
    → IsSorted p.sequence r.held
    → IsOpen r.window (drain r out).0 × (length (drain r out).0.held < length r.held)
drain-due r p packet held out e held_e h =
    let (opened, count) = drain-IsOpen r p out e h in
    let one : 1 ≤ length (ready p.sequence r.held) =
      subst (λ l. 1 ≤ length (ready p.sequence l)) (sym held_e)
        (ready-due p.sequence packet held) in
    (opened, omega arith)

skip-IsOpen :
    (window : ℕ) (r : Reorder) (held : Held) (out : List (List ℕ))
    → IsOpen window r
    → r.held ≡ held
    → 0 < length held
    → IsOpen window (drain (skip_to_first_held r) out).0
      × (length (drain (skip_to_first_held r) out).0.held < length r.held)
skip-IsOpen window r [] out o e h = absurd (omega arith)
skip-IsOpen window r ((key, packet) ∷ held) out (w, (p, next, sorted)) e h =
    let p' : Position = record p { sequence = key } in
    let r' : Reorder = record r { next = some p' } in
    let skipped : skip_to_first_held r ≡ r' = ap₂ (skip_by r) next e in
    let in_order : IsSorted key r.held =
      subst (IsSorted key) (sym e) (omega arith, (subst (IsSorted (p.sequence + 1)) e sorted).1) in
    subst (λ x. IsOpen window (drain x out).0 × (length (drain x out).0.held < length r.held))
      (sym skipped)
      (subst (λ v. IsOpen v (drain r' out).0 × (length (drain r' out).0.held < length r.held)) w
        (drain-due r' p' packet held out refl e in_order))

abbrev Within : ℕ → ℕ → Reorder × List (List ℕ) → Type 0
Within window limit r = IsOpen window r.0 × (length r.0.held ≤ limit)

give_up-Within :
    (fuel window limit : ℕ) (r : Reorder) (out : List (List ℕ))
    → IsOpen window r
    → length r.held ≤ fuel + limit
    → Within window limit (give_up fuel limit r out)
unfolding give_up
give_up-Within zero window limit r out o h = (o, omega arith)
give_up-Within (suc fuel) window limit r out o h =
    if_cases (Within window limit) (ltb limit (length r.held)) _ _
      (λ more.
        let (next, fewer) = skip-IsOpen window r r.held out o refl (ground arith) in
        let r' = drain (skip_to_first_held r) out in
        give_up-Within fuel window limit r'.0 r'.1 next (omega arith))
      (λ enough. (o, ground arith))

at_most :
    (window limit : ℕ) (r : Reorder × List (List ℕ))
    → limit ≤ window
    → Within window limit r
    → Within window window r
at_most window limit r le (o, h) = (o, omega arith)

-- What `push` keeps: nothing is held before the first packet, and after it no more than the window.
abbrev pub IsReorder : Reorder → Type 0
IsReorder r = (length r.held ≤ r.window) × (((r.next ≡ none) × (r.held ≡ [])) ⊎ IsOpen r.window r)

abbrev pub Keeps : ℕ → Reorder × List (List ℕ) → Type 0
Keeps window r = IsReorder r.0 × (r.0.window ≡ window)

Within-Keeps : (window : ℕ) (r : Reorder × List (List ℕ)) → Within window window r → Keeps window r
Within-Keeps window r ((w, o), le) =
    ((omega arith, inr (subst (λ v. IsOpen v r.0) (sym w) (w, o))), w)

accept-Within :
    (r : Reorder) (p : Position) (key : ℕ) (packet : Packet) (out : List (List ℕ))
    → r.next ≡ some p
    → IsSorted p.sequence r.held
    → p.sequence ≤ key
    → Within r.window r.window (accept r key packet out)
unfolding accept
accept-Within r p key packet out e h le =
    let r1 : Reorder = record r { held = insert key packet r.held } in
    let (opened, count) =
      drain-IsOpen r1 p out e (insert-IsSorted p.sequence key packet r.held le h) in
    let d = drain r1 out in
    let same : d.0.window ≡ r.window = opened.0 in
    subst (λ limit. Within r.window limit (give_up (length d.0.held) d.0.window d.0 d.1)) same
      (give_up-Within (length d.0.held) r.window d.0.window d.0 d.1 opened (omega arith))

length-zero : (held : Held) → length held ≤ 0 → held ≡ []
length-zero [] h = refl
length-zero (entry ∷ held) h = absurd (omega arith)

resync-Within :
    (r : Reorder) (sequence : ℕ) (packet : Packet) (out : List (List ℕ))
    → IsOpen r.window r
    → Within r.window 0 (resync r sequence packet out)
unfolding resync flush insert
resync-Within r sequence packet out o =
    let (gone, empty) = give_up-Within (length r.held) r.window 0 r out o (omega arith) in
    let f = flush r out in
    let p : Position = record { sequence = sequence; timestamp = packet.0 } in
    let nothing : f.0.held ≡ [] = length-zero f.0.held empty in
    let r1 : Reorder = record f.0 { next = some p; held = insert sequence packet f.0.held } in
    let one : r1.held ≡ (sequence, packet) ∷ [] = ap (insert sequence packet) nothing in
    let (opened, fewer) =
      drain-due r1 p packet [] f.1 refl one
        (subst (IsSorted sequence) (sym one) (omega arith, tt)) in
    let count : length r1.held ≡ 1 = ap length one in
    (subst (λ v. IsOpen v (drain r1 f.1).0) gone.0 opened, omega arith)

position-IsSorted :
    (r : Reorder) (sequence timestamp : ℕ)
    → ((r.next ≡ none) × (r.held ≡ [])) ⊎ IsOpen r.window r
    → IsSorted ((position r.next sequence timestamp).sequence + 1) r.held
position-IsSorted r sequence timestamp (inl (next, nothing)) =
    subst (IsSorted ((position r.next sequence timestamp).sequence + 1)) (sym nothing) tt
position-IsSorted r sequence timestamp (inr (w, (p, next, sorted))) =
    subst (λ n. IsSorted ((position n sequence timestamp).sequence + 1) r.held) (sym next) sorted

-- However the packets come, what is held afterwards is in the order of the numbers, none of it is due
-- to go, and it is no more than the window: the loops of `push` end with the turns they are given.
pub push-IsReorder :
    (r : Reorder) (sequence timestamp : ℕ) (samples : List ℕ) (out : List (List ℕ))
    → IsReorder r
    → Keeps r.window (push r sequence timestamp samples out)
unfolding push
push-IsReorder r sequence timestamp samples out (le, state) =
    let p = position r.next sequence timestamp in
    let r1 : Reorder = record r { next = some p } in
    let ahead = (sequence + 2 ^ 16 - p.sequence % 2 ^ 16) % 2 ^ 16 in
    let packet : Packet = (timestamp, samples) in
    let sorted = position-IsSorted r sequence timestamp state in
    let opened : IsOpen r.window r1 = (refl, (p, refl, sorted)) in
    let anew = resync r1 sequence packet out in
    let taken = accept r1 (p.sequence + ahead) packet out in
    let again =
      Within-Keeps r.window anew
        (at_most r.window 0 anew (omega arith) (resync-Within r1 sequence packet out opened)) in
    if_cases (Keeps r.window) (ltb ahead (2 ^ 15)) _ _
      (λ forward.
        if_cases (Keeps r.window) (ltb resync_distance ahead) _ _ (λ far. again)
          (λ near. Within-Keeps r.window taken (
            accept-Within r1 p (p.sequence + ahead) packet out refl
              (IsSorted-le p.sequence (p.sequence + 1) r.held (omega arith) sorted) (omega arith))))
      (λ backward.
        if_cases (Keeps r.window) (ltb resync_distance (2 ^ 16 - ahead)) _ _ (λ far. again)
          (λ late. ((le, inr opened), refl)))

-- After a flush nothing is held: each of its turns lets a packet go.
pub flush-empty : (r : Reorder) (out : List (List ℕ)) → IsReorder r → (flush r out).0.held ≡ []
unfolding flush give_up
flush-empty r out (le, inl (next, nothing)) =
    ap (λ l. (give_up (length l) 0 r out).0.held) nothing ∙ nothing
flush-empty r out (le, inr opened) =
    length-zero (flush r out).0.held
      (give_up-Within (length r.held) r.window 0 r out opened (omega arith)).1
