-- ===== src/Lapm/Invariant/Sending.antt =====
-- `next_frame` keeps a `Lapm` well-formed.
use softmodem_rs.Prelude.{
  ℕ, ◌+◌, ◌%◌, ◌≤◌, ◌<◌, ◌≡◌, refl, min, Bool, true, false, ◌||◌, Option, none, some, List, [], ◌∷◌,
  ◌++◌, ltb, leb, length, length-append, take, drop, arith, Bool-cases, inl, inr, ltb→lt, if_cases,
}
use softmodem_rs.Frame.{Frame}
use softmodem_rs.Lapm.State.{
  Lapm, Owed, State, connected, released, is_connected, is_released, ahead, expire,
}
use softmodem_rs.Lapm.Transmit.{
  is_empty, emit_i_frame, next_i_frame, next_data, next_polled, next_connected, next_urgent,
  next_frame,
}
use softmodem_rs.Lapm.Invariant.{IsLapm, expire-IsLapm}

-- After V(S) has gone on by one the window still covers it.
ahead_next :
    (vs va n : ℕ) → vs < 128 → va < 128 → n ≤ 127 → ahead vs va < n → ahead ((vs + 1) % 128) va ≤ n
ahead_next vs va n h k m a = omega arith

connected_alive : (s : State) → is_connected s ≡ true → is_released s ≡ false
connected_alive connected c = refl
connected_alive released c = cc
connected_alive _ c = refl

emit-IsLapm :
    (l : Lapm) (now : ℕ)
    → is_connected l.state ≡ true
    → ahead l.vs l.va < length l.sent
    → IsLapm l
    → IsLapm (emit_i_frame l (ahead l.vs l.va) now).0
unfolding emit_i_frame
emit-IsLapm l now c h v =
    ground (arith, ahead_next l.vs l.va (length l.sent) v.vs_lt v.va_lt v.sent_le h)

resent-IsLapm : (l : Lapm) → IsLapm l → IsLapm (record l { resent = l.resent + 1 })
resent-IsLapm l v = ground arith

-- A new frame, where the window has room.
extended-IsLapm :
    (l : Lapm) (more : List (List ℕ)) (rest : List ℕ)
    → is_connected l.state ≡ true
    → length l.sent < l.k_tx
    → length more ≡ 1
    → IsLapm l
    → IsLapm (record l { sent = l.sent ++ more; queue = rest })
extended-IsLapm l more rest c room one v =
    ground (arith, length-append l.sent more, connected_alive l.state c)

pub next_i_frame-IsLapm :
    (l : Lapm) (now : ℕ) → is_connected l.state ≡ true → IsLapm l → IsLapm (next_i_frame l now).0
unfolding next_i_frame
next_i_frame-IsLapm l now c v =
    let more : List (List ℕ) = take (min (length l.queue) l.n401_tx) l.queue ∷ [] in
    let rest : List ℕ = drop (min (length l.queue) l.n401_tx) l.queue in
    elim (Bool-cases (l.conditions.peer_busy || l.conditions.recovery)) [
      | inl b ↦ rw (b, next_i_frame) v
      | inr b ↦ elim (Bool-cases (ltb (ahead l.vs l.va) (length l.sent))) [
        | inl i ↦
            rw (b, i, next_i_frame)
              (emit-IsLapm (record l { resent = l.resent + 1 }) now c (ltb→lt _ _ i)
                (resent-IsLapm l v))
        | inr i ↦ elim (Bool-cases (leb l.k_tx (length l.sent) || is_empty l.queue)) [
          | inl w ↦ rw (b, i, w, next_i_frame) v
          | inr w ↦
              rw (b, i, w, next_i_frame)
                (emit-IsLapm (record l { sent = l.sent ++ more; queue = rest }) now c
                  (ground (arith, v.in_flight c, length-append l.sent more))
                  (extended-IsLapm l more rest c (ground arith) refl v))
        ]
      ]
    ]

next_data-IsLapm : (l : Lapm) (o : Option (List ℕ)) → IsLapm l → IsLapm (next_data (l, o)).0
unfolding next_data
next_data-IsLapm l none v = ground arith
next_data-IsLapm l (some frame) v = v

-- The state beside a frame that goes out.
abbrev Keeps : Lapm × Option (List ℕ) → Type 0
Keeps p = IsLapm p.0

next_data-IsLapm_pair : (p : Lapm × Option (List ℕ)) → IsLapm p.0 → IsLapm (next_data p).0
next_data-IsLapm_pair (l, o) v = next_data-IsLapm l o v

owing-IsLapm :
    (l : Lapm) (o : Owed) (t : Option ℕ) → IsLapm l → IsLapm (record l { owed = o; timer = t })
owing-IsLapm l o t v = ground arith

next_polled-IsLapm :
    (l : Lapm) (now : ℕ) → is_connected l.state ≡ true → IsLapm l → IsLapm (next_polled l now).0
unfolding next_polled
next_polled-IsLapm l now c v =
    if_cases Keeps l.owed.final_rr _ _ (λ _. owing-IsLapm l _ l.timer v)
      λ _.
        if_cases Keeps l.owed.poll _ _ (λ _. owing-IsLapm l _ (some (now + l.t401)) v)
          λ _. next_data-IsLapm_pair (next_i_frame l now) (next_i_frame-IsLapm l now c v)

next_connected-IsLapm :
    (l : Lapm) (now : ℕ) (o : Option Bool)
    → is_connected l.state ≡ true
    → IsLapm l
    → IsLapm (next_connected l now o).0
unfolding next_connected
next_connected-IsLapm l now (some f) c v = ground arith
next_connected-IsLapm l now none c v = next_polled-IsLapm l now c v

next_urgent-IsLapm :
    (l : Lapm) (now : ℕ) (u : List (Frame × Bool)) → IsLapm l → IsLapm (next_urgent l now u).0
unfolding next_urgent
next_urgent-IsLapm l now ((frame, timed) ∷ rest) v = ground arith
next_urgent-IsLapm l now [] v = elim (Bool-cases (is_connected l.state)) [
  | inl c ↦ rw c (next_connected-IsLapm l now l.owed.reject c v)
  | inr c ↦ rw c v
]

-- A well-formed end is well-formed after `next_frame`, at any time.
pub next_frame-IsLapm : (l : Lapm) (now : ℕ) → IsLapm l → IsLapm (next_frame l now).0
unfolding next_frame
next_frame-IsLapm l now v =
    next_urgent-IsLapm (expire l now) now (expire l now).urgent (expire-IsLapm l now v)
