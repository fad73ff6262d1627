-- ===== src/Lapm/Transmit.antt =====
-- `Lapm::next_frame` of lapm.rs: which frame goes next.
use softmodem_rs.Prelude.{
  ℕ, ◌+◌, ◌%◌, min, Bool, true, false, not, ◌&&◌, ◌||◌, Option, none, some, List, [], ◌∷◌, ◌++◌,
  ltb, leb, if◌then◌else◌, length, take, drop, get_or,
}
use softmodem_rs.Frame.{Frame, i_format, rr, rej, new, with_info, bytes}
use softmodem_rs.Lapm.State.{Lapm, modulus, cr, supervisory, ahead, expire, is_connected}

abbrev is_none : Option ℕ → Bool
is_none none = true
is_none (some _) = false

abbrev pub is_empty : List ℕ → Bool
is_empty [] = true
is_empty (_ ∷ _) = false

-- The second half of `next_i_frame`, from the frame that goes out.
unfoldable pub emit_i_frame : Lapm → ℕ → ℕ → Lapm × Option (List ℕ)
unfolding new with_info
emit_i_frame l index now =
    let frame = with_info (new (cr l true) (i_format l.vs l.vr false)) (get_or l.sent index []) in
    (
      record l {
        vs = (l.vs + 1) % modulus;
        owed = record l.owed { ack = false };
        timer = if is_none l.timer then some (now + l.t401) else l.timer;
      },
      some (bytes frame),
    )

unfoldable pub next_i_frame : Lapm → ℕ → Lapm × Option (List ℕ)
unfolding emit_i_frame
next_i_frame l now =
    let index = ahead l.vs l.va in
    let n = min (length l.queue) l.n401_tx in
    if l.conditions.peer_busy || l.conditions.recovery
    then (l, none)
    else if ltb index (length l.sent)
    then emit_i_frame (record l { resent = l.resent + 1 }) index now
    else if leb l.k_tx (length l.sent) || is_empty l.queue
    then (l, none)
    else emit_i_frame (record l { sent = l.sent ++ take n l.queue ∷ []; queue = drop n l.queue })
        index now

-- The last steps of `next_frame`: an I frame, or an RR that is owed.
unfoldable pub next_data : Lapm × Option (List ℕ) → Lapm × Option (List ℕ)
unfolding supervisory
next_data (l, some frame) = (l, some frame)
next_data (l, none) =
    if l.owed.ack
    then (
      record l { owed = record l.owed { ack = false } },
      some (bytes (supervisory l false rr false)),
    )
    else (l, none)

unfoldable pub next_polled : Lapm → ℕ → Lapm × Option (List ℕ)
unfolding supervisory next_i_frame next_data
next_polled l now =
    if l.owed.final_rr
    then (
      record l { owed = record l.owed { final_rr = false; ack = false } },
      some (bytes (supervisory l false rr true)),
    )
    else if l.owed.poll
    then (
      record l { owed = record l.owed { poll = false; ack = false }; timer = some (now + l.t401) },
      some (bytes (supervisory l true rr true)),
    )
    else next_data (next_i_frame l now)

unfoldable pub next_connected : Lapm → ℕ → Option Bool → Lapm × Option (List ℕ)
unfolding supervisory next_polled
next_connected l now (some final_bit) = (
  record l {
    owed = record l.owed {
      reject = none;
      final_rr = l.owed.final_rr && not final_bit;
      ack = false;
    };
  },
  some (bytes (supervisory l false rej final_bit)),
)
next_connected l now none = next_polled l now

unfoldable pub next_urgent : Lapm → ℕ → List (Frame × Bool) → Lapm × Option (List ℕ)
unfolding next_connected
next_urgent l now ((frame, timed) ∷ rest) = (
  record l { urgent = rest; timer = if timed then some (now + l.t401) else l.timer },
  some (bytes frame),
)
next_urgent l now [] =
    if is_connected l.state then next_connected l now l.owed.reject else (l, none)

unfoldable pub next_frame : Lapm → ℕ → Lapm × Option (List ℕ)
unfolding expire next_urgent
next_frame l now = let l' = expire l now in next_urgent l' now l'.urgent
