-- ===== src/Terminal/Line/Typing.antt =====
-- A command line typed into the editor of line.rs.
use softmodem_rs.Prelude.{
  ℕ, ◌+◌, ◌≤◌, ◌<◌, ◌≡◌, refl, ap, ap₂, sym, ◌∙◌, Bool, true, not, ◌&&◌, Option, none, some, List,
  [], ◌∷◌, ◌++◌, ◌==◌, length, length-append, append_assoc, append-nil, All, arith, Bool-cases, inl,
  inr,
}
use softmodem_rs.Terminal.Line.{
  Input, line, LineEditor, Keys, is_letter, end_line, after_a, take_byte, echoed, push,
}

-- The bytes of a session, one after the other: the editor, the lines that were completed, and the echo.
abbrev pub Session : Type 0
Session = (LineEditor × List Input) × List ℕ

abbrev completed : Option Input → Session → Session
completed none s = s
completed (some input) ((d, inputs), out) = ((d, input ∷ inputs), out)

unfoldable pub type_all : Keys → LineEditor → List ℕ → List ℕ → Session
unfolding push
type_all keys d [] out = ((d, []), out)
type_all keys d (byte ∷ bytes) out =
    let ((d', input), out') = push keys d byte out in completed input (type_all keys d' bytes out')

-- A byte that stands for itself in a line.
abbrev pub is_text : Keys → ℕ → Bool
is_text keys byte =
    not (byte == keys.terminator) && not (byte == keys.backspace) && not (byte == 10)

abbrev pub IsText : Keys → ℕ → Type 0
IsText keys byte = is_text keys byte ≡ true

push-text :
    (keys : Keys) (x y byte : ℕ) (text last out : List ℕ)
    → IsText keys byte
    → length text < 253
    → push keys (record { buffer = x ∷ y ∷ text; last = last }) byte out ≡ (
      (record { buffer = x ∷ y ∷ (text ++ byte ∷ []); last = last }, none),
      echoed keys (byte ∷ []) out,
    )
unfolding push take_byte
push-text keys x y byte text last out h fits = ground (arith, length-append {0} text (byte ∷ []))

push-first :
    (keys : Keys) (a : ℕ) (last out : List ℕ)
    → IsText keys a
    → is_letter a 65 ≡ true
    → push keys (record { buffer = []; last = last }) a out
      ≡ ((record { buffer = a ∷ []; last = last }, none), echoed keys (a ∷ []) out)
unfolding push take_byte
push-first keys a last out h l = ground arith

push-second :
    (keys : Keys) (a t : ℕ) (last out : List ℕ)
    → IsText keys t
    → is_letter t 84 ≡ true
    → push keys (record { buffer = a ∷ []; last = last }) t out
      ≡ ((record { buffer = a ∷ t ∷ []; last = last }, none), echoed keys (t ∷ []) out)
unfolding push take_byte after_a
push-second keys a t last out h l = ground arith

push-end :
    (keys : Keys) (a t : ℕ) (text last out : List ℕ)
    → is_letter a 65 ≡ true
    → is_letter t 84 ≡ true
    → push keys (record { buffer = a ∷ t ∷ text; last = last }) keys.terminator out ≡ (
      (record { buffer = []; last = text }, some (line text)),
      echoed keys (keys.terminator ∷ []) out,
    )
unfolding push end_line
push-end keys a t text last out l m = ground arith

type_all-cons :
    (keys : Keys) (d d' : LineEditor) (input : Option Input) (byte : ℕ) (bytes out out' : List ℕ)
    → push keys d byte out ≡ ((d', input), out')
    → type_all keys d (byte ∷ bytes) out ≡ completed input (type_all keys d' bytes out')
unfolding type_all
type_all-cons keys d d' input byte bytes out out' e =
    ap
      (λ (p : (LineEditor × Option Input) × List ℕ).
        completed p.0.1 (type_all keys p.0.0 bytes p.1))
      e

echoed-append :
    (keys : Keys) (xs ys out : List ℕ)
    → echoed keys ys (echoed keys xs out) ≡ echoed keys (xs ++ ys) out
echoed-append keys xs ys out = elim (Bool-cases keys.echo) [
  | inl on ↦ rw on (append_assoc out xs ys)
  | inr off ↦ rw off refl
]

module _ (keys : Keys) (a t : ℕ) (l : is_letter a 65 ≡ true) (m : is_letter t 84 ≡ true) where
  -- The rest of a line, and its terminator.
  type_all-text :
      (typed text last out : List ℕ)
      → All (IsText keys) text
      → length typed + length text ≤ 253
      → type_all keys
          (record { buffer = a ∷ t ∷ typed; last = last })
          (text ++ keys.terminator ∷ [])
          out
        ≡ (
          (record { buffer = []; last = typed ++ text }, line (typed ++ text) ∷ []),
          echoed keys (text ++ keys.terminator ∷ []) out,
        )
  type_all-text typed [] last out h fits =
      type_all-cons keys _ _ _ _ [] out _ (push-end keys a t typed last out l m)
      ∙ unfold type_all in
        ap
          (λ text. (
            (record { buffer = []; last = text }, line text ∷ []),
            echoed keys (keys.terminator ∷ []) out,
          ))
          (sym (append-nil typed))
  type_all-text typed (byte ∷ text) last out (h, hs) fits =
      let longer = length-append {0} typed (byte ∷ []) in
      type_all-cons keys _ _ none byte (text ++ keys.terminator ∷ []) out _
        (push-text keys a t byte typed last out h (omega arith))
      ∙ type_all-text (typed ++ byte ∷ []) text last (echoed keys (byte ∷ []) out) hs
          (omega (arith, longer))
      ∙ ap₂ (λ (x y : List ℕ). ((record { buffer = []; last = x }, line x ∷ []), y))
          (append_assoc typed (byte ∷ []) text)
          (echoed-append keys (byte ∷ []) (text ++ keys.terminator ∷ []) out)

  -- An A, a T, at most 253 bytes of text and the terminator, typed into an editor with nothing in it,
  -- complete one line, with just this text, which is also kept to be repeated; all of it is echoed if
  -- echo is on, and the editor is empty again. None of the bytes before the last is the terminator, the
  -- backspace or a line feed; the letters may be small or capital.
  pub type_all-line :
      (text last out : List ℕ)
      → IsText keys a
      → IsText keys t
      → All (IsText keys) text
      → length text ≤ 253
      → type_all keys
          (record { buffer = []; last = last })
          (a ∷ t ∷ (text ++ keys.terminator ∷ []))
          out
        ≡ (
          (record { buffer = []; last = text }, line text ∷ []),
          echoed keys (a ∷ t ∷ (text ++ keys.terminator ∷ [])) out,
        )
  type_all-line text last out h k hs fits =
      let rest = text ++ keys.terminator ∷ [] in
      type_all-cons keys _ _ none a (t ∷ rest) out _ (push-first keys a last out h l)
      ∙ type_all-cons keys _ _ none t rest (echoed keys (a ∷ []) out) _
          (push-second keys a t last (echoed keys (a ∷ []) out) k m)
      ∙ type_all-text [] text last (echoed keys (t ∷ []) (echoed keys (a ∷ []) out)) hs
          (omega arith)
      ∙ ap (λ y. ((record { buffer = []; last = text }, line text ∷ []), y))
          (ap (echoed keys rest) (echoed-append keys (a ∷ []) (t ∷ []) out)
            ∙ echoed-append keys (a ∷ t ∷ []) rest out)
