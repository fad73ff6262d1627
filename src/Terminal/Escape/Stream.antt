-- ===== src/Terminal/Escape/Stream.antt =====
-- The escape detector of escape.rs over a whole session: what it passes on, and what it takes out.
use softmodem_rs.Prelude.{
  ℕ, ◌+◌, ◌-◌, ◌≤◌, ◌<◌, ◌≡◌, refl, ap, sym, ◌∙◌, ◌⊎◌, Option, none, some, List, [], ◌∷◌, ◌++◌,
  length, append_assoc, append-nil, arith,
}
use softmodem_rs.Terminal.Escape.{EscapeDetector, Timeout, escaped, release, push, poll, deadline}

-- The computer sends a byte, or the time comes to look.
pub data Event : Type 0 where
  typed : ℕ → ℕ → Event
  waited : ℕ → Event

-- What the modem gets: data, or the escape.
pub data Passed : Type 0 where
  byte : ℕ → Passed
  escape : Passed

unfoldable pub bytes : List ℕ → List Passed
bytes [] = []
bytes (b ∷ bs) = byte b ∷ bytes bs

abbrev passed : Option Timeout → List Passed
passed none = []
passed (some escaped) = escape ∷ []
passed (some (release bs)) = bytes bs

unfoldable pub run : ℕ → ℕ → EscapeDetector → List Event → EscapeDetector × List Passed
unfolding push poll bytes
run c guard d [] = (d, [])
run c guard d (typed b now ∷ es) =
    let (d', out) = push d b (some c) guard now [] in
    let (last, rest) = run c guard d' es in (last, bytes out ++ rest)
run c guard d (waited now ∷ es) =
    let (d', timeout) = poll d guard now in
    let (last, rest) = run c guard d' es in (last, passed timeout ++ rest)

unfoldable pub input : List Event → List ℕ
input [] = []
input (typed b now ∷ es) = b ∷ input es
input (waited now ∷ es) = input es

-- An escape stands for the three characters that made it.
unfoldable pub expand : ℕ → List Passed → List ℕ
expand c [] = []
expand c (byte b ∷ ps) = b ∷ expand c ps
expand c (escape ∷ ps) = c ∷ c ∷ c ∷ expand c ps

expand-append : (c : ℕ) (ps qs : List Passed) → expand c (ps ++ qs) ≡ expand c ps ++ expand c qs
unfolding expand
expand-append c [] qs = refl
expand-append c (byte b ∷ ps) qs = ap (λ l. b ∷ l) (expand-append c ps qs)
expand-append c (escape ∷ ps) qs = ap (λ l. c ∷ c ∷ c ∷ l) (expand-append c ps qs)

expand-bytes : (c : ℕ) (bs : List ℕ) → expand c (bytes bs) ≡ bs
unfolding expand bytes
expand-bytes c [] = refl
expand-bytes c (b ∷ bs) = ap (λ l. b ∷ l) (expand-bytes c bs)

-- What is held is up to three escape characters.
abbrev pub IsHeld : ℕ → List ℕ → Type 0
IsHeld c held = (held ≡ []) ⊎ (held ≡ c ∷ []) ⊎ (held ≡ c ∷ c ∷ []) ⊎ (held ≡ c ∷ c ∷ c ∷ [])

abbrev Pushed : ℕ → EscapeDetector → ℕ → EscapeDetector × List ℕ → Type 0
Pushed c d b r = IsHeld c r.0.held × (r.1 ++ r.0.held ≡ d.held ++ b ∷ [])

push-Pushed :
    (c guard now b : ℕ) (d : EscapeDetector)
    → IsHeld c d.held
    → Pushed c d b (push d b (some c) guard now [])
unfolding push
push-Pushed c guard now b d h = ground arith

abbrev Polled : ℕ → EscapeDetector → EscapeDetector × Option Timeout → Type 0
Polled c d r = IsHeld c r.0.held × (expand c (passed r.1) ++ r.0.held ≡ d.held)

poll-Polled :
    (c guard now : ℕ) (d : EscapeDetector) → IsHeld c d.held → Polled c d (poll d guard now)
unfolding poll expand bytes
poll-Polled c guard now d h = ground arith

-- Nothing that the computer sends is lost, repeated or put in another order: what is passed on, each
-- escape written out as its three escape characters, and what is still held, are what was held and
-- what was typed. What is held is never more than three escape characters.
pub expand-run :
    (c guard : ℕ) (es : List Event) (d : EscapeDetector)
    → IsHeld c d.held
    → (expand c (run c guard d es).1 ++ (run c guard d es).0.held ≡ d.held ++ input es)
      × IsHeld c (run c guard d es).0.held
unfolding run input expand
expand-run c guard [] d h = (sym (append-nil d.held), h)
expand-run c guard (typed b now ∷ es) d h =
    let r = push d b (some c) guard now [] in
    let (kept, all) = push-Pushed c guard now b d h in
    let (rest, last) = expand-run c guard es r.0 kept in
    let final = run c guard r.0 es in
    (
      ap (λ l. l ++ final.0.held)
            (expand-append c (bytes r.1) final.1
              ∙ ap (λ l. l ++ expand c final.1) (expand-bytes c r.1))
          ∙ append_assoc r.1 (expand c final.1) final.0.held
          ∙ ap (λ l. r.1 ++ l) rest
          ∙ sym (append_assoc r.1 r.0.held (input es))
          ∙ ap (λ l. l ++ input es) all
          ∙ append_assoc d.held (b ∷ []) (input es),
      last,
    )
expand-run c guard (waited now ∷ es) d h =
    let r = poll d guard now in
    let (kept, all) = poll-Polled c guard now d h in
    let (rest, last) = expand-run c guard es r.0 kept in
    let final = run c guard r.0 es in
    (
      ap (λ l. l ++ final.0.held) (expand-append c (passed r.1) final.1)
          ∙ append_assoc (expand c (passed r.1)) (expand c final.1) final.0.held
          ∙ ap (λ l. expand c (passed r.1) ++ l) rest
          ∙ sym (append_assoc (expand c (passed r.1)) r.0.held (input es))
          ∙ ap (λ l. l ++ input es) all,
      last,
    )

push-first :
    (c guard now : ℕ) (d : EscapeDetector)
    → d.held ≡ []
    → d.last_data + guard ≤ now
    → push d c (some c) guard now [] ≡ (record d { held = c ∷ []; last_held = now }, [])
unfolding push
push-first c guard now d e h = ground arith

push-more :
    (c guard now : ℕ) (held : List ℕ) (d : EscapeDetector)
    → (d.held ≡ c ∷ held) × (length held < 2)
    → now - d.last_held < guard
    → push d c (some c) guard now []
      ≡ (record d { held = c ∷ (held ++ c ∷ []); last_held = now }, [])
unfolding push
push-more c guard now held d e h = ground arith

poll-three :
    (c guard now : ℕ) (d : EscapeDetector)
    → d.held ≡ c ∷ c ∷ c ∷ []
    → d.last_held + guard ≤ now
    → (poll d guard now).1 ≡ some escaped
unfolding poll
poll-three c guard now d e h = ground arith

-- With nothing held: after a guard time with no data, three escape characters, each within the guard
-- time of the last, and another guard time, the escape is passed on and no data.
pub run-escape :
    (c guard t1 t2 t3 t4 : ℕ) (d : EscapeDetector)
    → d.held ≡ []
    → d.last_data + guard ≤ t1
    → t2 - t1 < guard
    → t3 - t2 < guard
    → t3 + guard ≤ t4
    → (run c guard d (typed c t1 ∷ typed c t2 ∷ typed c t3 ∷ waited t4 ∷ [])).1 ≡ escape ∷ []
unfolding run bytes
run-escape c guard t1 t2 t3 t4 d e h1 h2 h3 h4 =
    let d1 : EscapeDetector = record d { held = c ∷ []; last_held = t1 } in
    let d2 : EscapeDetector = record d { held = c ∷ c ∷ []; last_held = t2 } in
    let d3 : EscapeDetector = record d { held = c ∷ c ∷ c ∷ []; last_held = t3 } in
    rw (
      push-first c guard t1 d e h1,
      push-more c guard t2 [] d1 (refl, omega arith) h2,
      push-more c guard t3 (c ∷ []) d2 (refl, omega arith) h3,
      poll-three c guard t4 d3 refl h4,
    )

-- The modem hears about whatever is held: at its deadline `poll` passes it on and leaves nothing.
pub poll-deadline :
    (guard now t : ℕ) (d : EscapeDetector)
    → deadline d guard ≡ some t
    → t ≤ now
    → ((poll d guard now).0.held ≡ [])
      × (¬ ((poll d guard now).1 ≡ none))
      × (deadline (poll d guard now).0 guard ≡ none)
unfolding poll deadline
poll-deadline guard now t d e h = ground arith
