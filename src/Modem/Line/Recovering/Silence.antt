-- ===== src/Modem/Line/Recovering/Silence.antt =====
-- About `Recovery::poll` of softmodem/src/line.rs over many polls of a line that stays quiet.
use softmodem_rs.Prelude.{
  ℕ, ◌+◌, ◌-◌, ◌<◌, ◌≤◌, ◌≡◌, refl, sym, ap, ◌∙◌, subst, append_assoc, true, not, if◌then◌else◌,
  if_cases, Option, none, some, List, [], ◌∷◌, ◌++◌, All, ltb, arith,
}
use softmodem_rs.Modem.Line.Recovering.{
  Action, renegotiate, retrain, Recovery, new, still_tried, or_now, no_earlier, next_action, try,
  poll, quiet, Polled, taken, poll_all,
}

-- What is left to try.
abbrev left : Option (Action × ℕ) → List Action
left none = renegotiate ∷ retrain ∷ []
left (some (renegotiate, at)) = retrain ∷ []
left (some (retrain, at)) = []

-- Tried, if at all, at an instant or later.
abbrev IsSince : ℕ → Option (Action × ℕ) → Type 0
IsSince t none = Unit
IsSince t (some (a, at)) = t ≤ at

abbrev pub IsSilent : ℕ → Option ℕ → Type 0
IsSilent t none = Unit
IsSilent t (some sound) = sound ≤ t

-- Polled at an instant or later, with no sound after it.
pub record IsPolled (t : ℕ) (p : Polled) : Type 0 where
  pub later : t ≤ p.now
  pub silent : IsSilent t p.sound

still_tried-silent :
    (t : ℕ) (tried : Option (Action × ℕ)) (sound : Option ℕ)
    → IsSince t tried
    → IsSilent t sound
    → still_tried tried sound ≡ tried
still_tried-silent t none sound h k = refl
still_tried-silent t (some (a, at)) none h k = refl
still_tried-silent t (some (a, at)) (some sound) h k =
    if_cases (λ x. x ≡ some (a, at)) (ltb at sound) none _ (λ yes. ground (arith, yes, h, k))
      (λ _. refl)

-- One poll takes the first of what is left, or nothing.
abbrev Takes : ℕ → Recovery → Recovery × Option Action → Type 0
Takes t r (r', action) = (taken action ++ left r'.tried ≡ left r.tried) × IsSince t r'.tried

try-Takes :
    (t now from : ℕ) (tried : Option (Action × ℕ)) (q : Option ℕ)
    → t ≤ now
    → IsSince t tried
    → Takes t
        (record { quiet_from = q; tried = tried })
        (try (next_action tried) now (record { quiet_from = some from; tried = tried }))
try-Takes t now from none q h k = (refl, h)
try-Takes t now from (some (renegotiate, at)) q h k = (refl, h)
try-Takes t now from (some (retrain, at)) q h k = (refl, k)

poll-Takes :
    (t : ℕ) (r : Recovery) (p : Polled)
    → IsPolled t p
    → IsSince t r.tried
    → Takes t r (poll r p.now p.in_data p.sound)
unfolding poll
poll-Takes t r p h k =
    let same = still_tried-silent t r.tried p.sound k h.silent in
    let from = no_earlier (or_now r.quiet_from p.now) p.sound in
    if_cases (Takes t r) (not p.in_data) _ _ (λ _. (refl, k))
      (λ _.
        if_cases (Takes t r) (ltb (p.now - from) quiet) _ _
          (λ _.
            subst (λ x. Takes t r (record { quiet_from = some from; tried = x }, none)) (sym same)
              (refl, k))
          (λ _.
            subst
              (λ x.
                Takes t r
                  (try (next_action x) p.now (record { quiet_from = some from; tried = x })))
              (sym same) (try-Takes t p.now from r.tried r.quiet_from h.later k)))

-- What the polls do and what is left then make up what was left.
poll_all-left :
    (t : ℕ) (ps : List Polled) (r : Recovery)
    → All (IsPolled t) ps
    → IsSince t r.tried
    → (poll_all ps r).1 ++ left (poll_all ps r).0.tried ≡ left r.tried
poll_all-left t [] r h k = refl
poll_all-left t (p ∷ ps) r (h, hs) k =
    let (r', action) = poll r p.now p.in_data p.sound in
    let (one, since) = poll-Takes t r p h k in
    append_assoc (taken action) (poll_all ps r').1 (left (poll_all ps r').0.tried)
    ∙ ap (λ l. taken action ++ l) (poll_all-left t ps r' hs since)
    ∙ one

-- Quiet since an instant, with what was tried.
abbrev waiting : ℕ → Option (Action × ℕ) → Recovery
waiting from tried = record { quiet_from = some from; tried = tried }

no_earlier-silent :
    (t from : ℕ) (sound : Option ℕ) → t ≤ from → IsSilent t sound → no_earlier from sound ≡ from
no_earlier-silent t from none h k = refl
no_earlier-silent t from (some sound) h k = ground (arith, h, k)

-- A poll in data mode, of a line quiet since an instant.
poll-in_data :
    (t : ℕ) (r : Recovery) (p : Polled)
    → p.in_data ≡ true
    → t ≤ or_now r.quiet_from p.now
    → IsSilent t p.sound
    → IsSince t r.tried
    → poll r p.now p.in_data p.sound ≡ (
        let from = or_now r.quiet_from p.now in
        if ltb (p.now - from) quiet
        then (waiting from r.tried, none)
        else try (next_action r.tried) p.now (waiting from r.tried))
unfolding poll
poll-in_data t r p e h k i = rw (
  e,
  no_earlier-silent t (or_now r.quiet_from p.now) p.sound h k,
  still_tried-silent t r.tried p.sound i k,
)

-- In data mode with no sound after an instant, before the quiet that began then has lasted long enough.
pub record IsWithin (t from : ℕ) (p : Polled) : Type 0 where
  pub polled : IsPolled t p
  pub in_data : p.in_data ≡ true
  pub soon : p.now < from + quiet

-- In data mode with no sound after an instant, once the quiet that began then has lasted long enough.
pub record IsDue (t from : ℕ) (p : Polled) : Type 0 where
  pub polled : IsPolled t p
  pub in_data : p.in_data ≡ true
  pub due : from + quiet ≤ p.now

poll-within :
    (t from : ℕ) (tried : Option (Action × ℕ)) (p : Polled)
    → t ≤ from
    → IsSince t tried
    → IsWithin t from p
    → poll (waiting from tried) p.now p.in_data p.sound ≡ (waiting from tried, none)
poll-within t from tried p h i k =
    poll-in_data t (waiting from tried) p k.in_data h k.polled.silent i
    ∙ if_cases (λ x. x ≡ (waiting from tried, none)) (ltb (p.now - from) quiet) _ _ (λ _. refl)
        (λ no. ground (arith, no, k.soon))

poll-due :
    (t from : ℕ) (tried : Option (Action × ℕ)) (p : Polled)
    → t ≤ from
    → IsSince t tried
    → IsDue t from p
    → poll (waiting from tried) p.now p.in_data p.sound
      ≡ try (next_action tried) p.now (waiting from tried)
poll-due t from tried p h i k =
    poll-in_data t (waiting from tried) p k.in_data h k.polled.silent i
    ∙ if_cases (λ x. x ≡ try (next_action tried) p.now (waiting from tried))
        (ltb (p.now - from) quiet) _ _ (λ yes. ground (arith, yes, k.due)) (λ _. refl)

poll_all-within :
    (t from : ℕ) (tried : Option (Action × ℕ)) (ps : List Polled)
    → t ≤ from
    → IsSince t tried
    → All (IsWithin t from) ps
    → poll_all ps (waiting from tried) ≡ (waiting from tried, [])
poll_all-within t from tried [] h i k = refl
poll_all-within t from tried (p ∷ ps) h i (k, ks) =
    rw (poll-within t from tried p h i k, poll_all-within t from tried ps h i ks)

-- More polls, after what the first came to.
abbrev continued : List Polled → Recovery × List Action → Recovery × List Action
continued ps (r, actions) = let (r', more) = poll_all ps r in (r', actions ++ more)

poll_all-append :
    (ps qs : List Polled) (r : Recovery) → poll_all (ps ++ qs) r ≡ continued qs (poll_all ps r)
poll_all-append [] qs r = refl
poll_all-append (p ∷ ps) qs r =
    let (r', action) = poll r p.now p.in_data p.sound in
    let (r'', actions) = poll_all ps r' in
    let (last, more) = poll_all qs r'' in
    ap (λ (x : Recovery × List Action). (x.0, taken action ++ x.1)) (poll_all-append ps qs r')
    ∙ ap (λ l. (last, l)) (sym (append_assoc (taken action) actions more))

-- The first poll in data mode starts the time.
poll_all-starts :
    (t : ℕ) (p : Polled) (ps : List Polled)
    → All (IsWithin t p.now) (p ∷ ps)
    → poll_all (p ∷ ps) new ≡ (waiting p.now none, [])
poll_all-starts t p ps (k, ks) =
    let none_yet = poll-in_data t new p k.in_data k.polled.later k.polled.silent tt in
    let first =
      none_yet
      ∙ if_cases (λ x. x ≡ (waiting p.now none, none)) (ltb (p.now - p.now) quiet) _ _ (λ _. refl)
          (λ no. ground (arith, no)) in
    rw (first, poll_all-within t p.now none ps k.polled.later tt ks)

-- A poll that is due takes the next action, and starts the time anew.
poll_all-takes :
    (t from : ℕ) (tried : Option (Action × ℕ)) (a : Action) (p : Polled) (ps : List Polled)
    → next_action tried ≡ some a
    → t ≤ from
    → IsSince t tried
    → IsDue t from p
    → All (IsWithin t p.now) ps
    → poll_all (p ∷ ps) (waiting from tried) ≡ (waiting p.now (some (a, p.now)), a ∷ [])
poll_all-takes t from tried a p ps e h i k ks = rw (
  poll-due t from tried p h i k,
  e,
  poll_all-within t p.now (some (a, p.now)) ps k.polled.later k.polled.later ks,
)

append-nothing : (xs ys : List Action) → xs ++ ys ≡ [] → xs ≡ []
append-nothing [] ys e = refl
append-nothing (x ∷ xs) ys e = absurd (ground (arith, e))

-- After a retrain nothing is left.
poll_all-retrained :
    (t from : ℕ) (p : Polled) (ps : List Polled)
    → t ≤ from
    → IsDue t from p
    → All (IsPolled t) ps
    → (poll_all (p ∷ ps) (waiting from (some (renegotiate, from)))).1 ≡ retrain ∷ []
poll_all-retrained t from p ps h k ks =
    let tried = some (retrain, p.now) in
    let nothing = append-nothing _ _ (poll_all-left t ps (waiting p.now tried) ks k.polled.later) in
    ap (λ (x : Recovery × Option Action). taken x.1 ++ (poll_all ps x.0).1)
      (poll-due t from (some (renegotiate, from)) p h h k)
    ∙ ap (λ l. retrain ∷ l) nothing

-- A line that has not recovered before and is in data mode does nothing until two seconds have passed
-- since its first poll with no sound after an instant before it; the poll `p1` that is due then
-- renegotiates, the first poll `p2` that is due two seconds after that retrains, and no poll after
-- it does anything, in whatever mode, while there is no sound.
pub poll_all-recovers :
    (t : ℕ) (p0 p1 p2 : Polled) (ps0 ps1 ps2 : List Polled)
    → All (IsWithin t p0.now) (p0 ∷ ps0)
    → IsDue t p0.now p1
    → All (IsWithin t p1.now) ps1
    → IsDue t p1.now p2
    → All (IsPolled t) ps2
    → ((poll_all (p0 ∷ ps0) new).1 ≡ [])
      × ((poll_all ((p0 ∷ ps0) ++ p1 ∷ ps1) new).1 ≡ renegotiate ∷ [])
      × ((poll_all ((p0 ∷ ps0) ++ ((p1 ∷ ps1) ++ p2 ∷ ps2)) new).1 ≡ renegotiate ∷ retrain ∷ [])
poll_all-recovers t p0 p1 p2 ps0 ps1 ps2 (h0, hs0) h1 hs1 h2 hs2 =
    let starts = poll_all-starts t p0 ps0 (h0, hs0) in
    let takes = poll_all-takes t p0.now none renegotiate p1 ps1 refl h0.polled.later tt h1 hs1 in
    let retrains = poll_all-retrained t p1.now p2 ps2 h1.polled.later h2 hs2 in
    (
      ap (λ x. x.1) starts,
      ap (λ x. x.1) (poll_all-append (p0 ∷ ps0) (p1 ∷ ps1) new)
          ∙ ap (λ x. (continued (p1 ∷ ps1) x).1) starts
          ∙ ap (λ x. x.1) takes,
      ap (λ x. x.1) (poll_all-append (p0 ∷ ps0) ((p1 ∷ ps1) ++ p2 ∷ ps2) new)
          ∙ ap (λ x. (continued ((p1 ∷ ps1) ++ p2 ∷ ps2) x).1) starts
          ∙ ap (λ x. x.1) (poll_all-append (p1 ∷ ps1) (p2 ∷ ps2) (waiting p0.now none))
          ∙ ap (λ x. (continued (p2 ∷ ps2) x).1) takes
          ∙ ap (λ l. renegotiate ∷ l) retrains,
    )
