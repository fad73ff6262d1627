-- ===== src/Lapm/Window.antt =====
-- The octets that an end has not had acknowledged, through `next_frame` and `acknowledge`.
use softmodem_rs.Prelude.{
  ℕ, ◌≡◌, refl, sym, ap, ◌∙◌, min, Bool, true, false, ◌||◌, Option, none, some, List, [], ◌∷◌, ◌++◌,
  append_assoc, append-nil, ltb, leb, length, length-append, take, drop, take-append-drop,
  get_elem?, get_or, get_elem?-eq-get_or, arith, if_cases,
}
use softmodem_rs.Frame.{Frame, i_format, new, with_info, bytes, parse}
use softmodem_rs.Frame.RoundTrip.{parse-bytes}
use softmodem_rs.Prelude.Result.{ok}
use softmodem_rs.Lapm.State.{Lapm, is_connected, is_released, ahead, expire, cr}
use softmodem_rs.Lapm.Transmit.{
  next_i_frame, next_data, next_polled, next_connected, next_urgent, next_frame, is_empty,
}
use softmodem_rs.Lapm.Invariant.{IsLapm}

abbrev pub concat : List (List ℕ) → List ℕ
concat [] = []
concat (x ∷ xs) = x ++ concat xs

-- What the far end has not acknowledged, in order: the I frames of the window and the queue.
abbrev pub unacknowledged : Lapm → List ℕ
unacknowledged l = concat l.sent ++ l.queue

concat-append : (xs ys : List (List ℕ)) → concat (xs ++ ys) ≡ concat xs ++ concat ys
concat-append [] ys = refl
concat-append (x ∷ xs) ys = rw (concat-append xs ys) (sym (append_assoc x (concat xs) (concat ys)))

moved :
    (sent : List (List ℕ)) (n : ℕ) (queue : List ℕ)
    → concat (sent ++ take n queue ∷ []) ++ drop n queue ≡ concat sent ++ queue
moved sent n queue =
    ap (λ t. t ++ drop n queue) (concat-append sent (take n queue ∷ []))
    ∙ append_assoc (concat sent) (take n queue ++ []) (drop n queue)
    ∙ ap (λ t. concat sent ++ (t ++ drop n queue)) (append-nil (take n queue))
    ∙ ap (λ t. concat sent ++ t) (take-append-drop n queue)

-- The state beside a frame that goes out has the same octets to send.
abbrev Same : Lapm → Lapm × Option (List ℕ) → Type 0
Same l p = (unacknowledged p.0 ≡ unacknowledged l) × (p.0.state ≡ l.state)

next_i_frame-Same : (l : Lapm) (now : ℕ) → Same l (next_i_frame l now)
unfolding next_i_frame
next_i_frame-Same l now =
    if_cases (Same l) (l.conditions.peer_busy || l.conditions.recovery) _ _ (λ _. (refl, refl))
      λ _.
        if_cases (Same l) (ltb (ahead l.vs l.va) (length l.sent)) _ _ (λ _. (refl, refl))
          λ _.
            if_cases (Same l) (leb l.k_tx (length l.sent) || is_empty l.queue) _ _
              (λ _. (refl, refl)) λ _. (moved l.sent (min (length l.queue) l.n401_tx) l.queue, refl)

next_data-Same : (l : Lapm) (p : Lapm × Option (List ℕ)) → Same l p → Same l (next_data p)
unfolding next_data
next_data-Same l (m, some frame) e = e
next_data-Same l (m, none) e = if_cases (Same l) m.owed.ack _ _ (λ _. e) (λ _. e)

next_polled-Same : (l : Lapm) (now : ℕ) → Same l (next_polled l now)
unfolding next_polled
next_polled-Same l now =
    if_cases (Same l) l.owed.final_rr _ _ (λ _. (refl, refl))
      λ _.
        if_cases (Same l) l.owed.poll _ _ (λ _. (refl, refl))
          λ _. next_data-Same l (next_i_frame l now) (next_i_frame-Same l now)

next_connected-Same : (l : Lapm) (now : ℕ) (o : Option Bool) → Same l (next_connected l now o)
unfolding next_connected
next_connected-Same l now (some f) = (refl, refl)
next_connected-Same l now none = next_polled-Same l now

next_urgent-Same : (l : Lapm) (now : ℕ) (u : List (Frame × Bool)) → Same l (next_urgent l now u)
unfolding next_urgent
next_urgent-Same l now ((frame, timed) ∷ rest) = (refl, refl)
next_urgent-Same l now [] =
    if_cases (Same l) (is_connected l.state) _ _ (λ _. next_connected-Same l now l.owed.reject)
      (λ _. (refl, refl))

expire-unacknowledged :
    (l : Lapm) (now : ℕ)
    → is_released (expire l now).state ≡ false
    → unacknowledged (expire l now) ≡ unacknowledged l
unfolding expire
expire-unacknowledged l now = ground arith

-- `next_frame` loses, repeats and reorders no octet that is not acknowledged yet: unless the
-- connection is released, the I frames of the window and the queue hold the same octets in the
-- same order after it.
pub next_frame-unacknowledged :
    (l : Lapm) (now : ℕ)
    → is_released (next_frame l now).0.state ≡ false
    → unacknowledged (next_frame l now).0 ≡ unacknowledged l
unfolding next_frame
next_frame-unacknowledged l now h =
    let (kept, state) = next_urgent-Same (expire l now) now (expire l now).urgent in
    kept ∙ expire-unacknowledged l now (ap is_released (sym state) ∙ h)

-- The I frame that goes out, if one does.
next_i_frame-bytes :
    (l l' : Lapm) (now : ℕ) (frame : List ℕ)
    → is_connected l.state ≡ true
    → IsLapm l
    → next_i_frame l now ≡ (l', some frame)
    → (info : List ℕ) × (get_elem? l'.sent (ahead l.vs l.va) ≡ some info)
      × (frame ≡ bytes (with_info (new (cr l true) (i_format l.vs l.vr false)) info))
unfolding next_i_frame
next_i_frame-bytes l l' now frame c v e = (
  get_or l'.sent (ahead l.vs l.va) [],
  ground (
    arith,
    get_elem?-eq-get_or l'.sent (ahead l.vs l.va) [],
    length-append l.sent (take (min (length l.queue) l.n401_tx) l.queue ∷ []),
    v.in_flight c,
  ),
  ground arith,
)

-- The octets of an I frame that goes out, read by the far end: a command with N(S) = V(S),
-- N(R) = V(R) and the octets that stand V(S) - V(A) places into the window.
pub parse-next_i_frame :
    (l l' : Lapm) (now : ℕ) (frame : List ℕ)
    → is_connected l.state ≡ true
    → IsLapm l
    → next_i_frame l now ≡ (l', some frame)
    → (info : List ℕ) × (get_elem? l'.sent (ahead l.vs l.va) ≡ some info)
      × (parse frame
          ≡ ok (record { cr = cr l true; control = i_format l.vs l.vr false; info = info }))
parse-next_i_frame l l' now frame c v e =
    let (info, at, octets) = next_i_frame-bytes l l' now frame c v e in
    (
      info,
      at,
      ap parse octets
          ∙ (unfold with_info new in
              parse-bytes
                (record { cr = cr l true; control = i_format l.vs l.vr false; info = info })
                (v.vs_lt, v.vr_lt)),
    )
