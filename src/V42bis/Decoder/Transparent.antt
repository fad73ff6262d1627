-- ===== src/V42bis/Decoder/Transparent.antt =====
-- The decoder of v42bis.rs follows the encoder while the compressibility tests leave it transparent.
use softmodem_rs.Prelude.{
  ℕ, ◌+◌, ◌%◌, ◌^◌, ◌≡◌, refl, ap, sym, subst, ==_iff, ◌∙◌, true, false, Bool-cases, inl, inr, List,
  [], ◌∷◌, ◌++◌, ◌==◌, if◌then◌else◌, arith, append_assoc, append-nil, if_cases,
}
use softmodem_rs.Prelude.Result.{ok}
use softmodem_rs.V42bis.Dictionary.{Dictionary, Matcher, push}
use softmodem_rs.V42bis.Encoder.{
  Encoder, transparent, character, characters, send, test_compressibility, next_escape, escape_step,
  eid, test_window,
}
use softmodem_rs.V42bis.Decoder.{
  Decoder, receive, command, transparent_octet, octet, decode, escape_character,
}

-- No compressibility test on the way takes the encoder out of transparent mode.
abbrev pub StaysTransparent : Encoder → List ℕ → Type 0
StaysTransparent e [] = Unit
StaysTransparent e (c ∷ cs) =
    ((character e c).mode ≡ transparent) × StaysTransparent (character e c) cs

-- What transparent mode sends of a character.
abbrev sent_octets : ℕ → ℕ → List ℕ
sent_octets escape c = if c == escape then c ∷ eid ∷ [] else c ∷ []

decode-plain :
    (d : Decoder) (c : ℕ) (rest out : List ℕ)
    → (c == d.escape) ≡ false
    → decode (record d { mode = transparent; escaped = false }) (c ∷ rest) out
      ≡ decode (record (receive d c) { mode = transparent; escaped = false }) rest (out ++ c ∷ [])
unfolding decode octet transparent_octet command receive
decode-plain d c rest out h = rw (h)

-- What of the encoder the decoder follows, and the octets it has written.
abbrev View : Type 0
View = List ℕ × ((Matcher × Dictionary) × ℕ)

abbrev view : Encoder → View
view e = (e.writer.out, ((e.matcher, e.dictionary), e.escape))

-- A test that leaves the mode transparent changes nothing of it.
view-test_compressibility :
    (e : Encoder)
    → (test_compressibility (record e { mode = transparent })).mode ≡ transparent
    → view (test_compressibility (record e { mode = transparent })) ≡ view e
unfolding test_compressibility
view-test_compressibility e h = ground arith

abbrev Sends : Encoder → ℕ → Encoder → Type 0
Sends e c e' =
    e'.mode ≡ transparent
    → view e' ≡ (
      e.writer.out ++ sent_octets e.escape c,
      ((push e.matcher e.dictionary c).0, next_escape e.escape c),
    )

-- The encoder before the test that a full window brings.
before_test : Encoder → ℕ → Encoder
unfolding send
before_test e c =
    let (next, ended) = push e.matcher e.dictionary c in
    let pushed : Encoder = record e { mode = transparent; matcher = next.0; dictionary = next.1 } in
    let sent = send pushed transparent c ended in
    record sent {
      escape = next_escape sent.escape c;
      window_characters = sent.window_characters + 1;
    }

view-character :
    (e : Encoder) (c : ℕ)
    → (character (record e { mode = transparent }) c).mode ≡ transparent
    → view (character (record e { mode = transparent }) c) ≡ (
      e.writer.out ++ sent_octets e.escape c,
      ((push e.matcher e.dictionary c).0, next_escape e.escape c),
    )
unfolding character send before_test
view-character e c =
    let after = before_test e c in
    if_cases (Sends e c) (after.window_characters == test_window) (test_compressibility after) after
      (λ full h. view-test_compressibility after h) (λ not_full h. refl)

abbrev pub clear : Decoder → Decoder
clear d = record d { mode = transparent; escaped = false }

-- The decoder after a character that the far end sent in transparent mode.
abbrev followed : Decoder → ℕ → Decoder
followed d c = let d' = receive d c in clear (record d' { escape = next_escape d.escape c })

decode-escape_octets :
    (d : Decoder) (rest out : List ℕ)
    → decode (clear d) (d.escape ∷ eid ∷ rest) out
      ≡ decode (clear (escape_character d)) rest (out ++ d.escape ∷ [])
unfolding decode octet transparent_octet command receive escape_character
decode-escape_octets d rest out =
    let same : (d.escape == d.escape) ≡ true = ground arith in rw (same)

decode-escape :
    (d : Decoder) (rest out : List ℕ)
    → decode (clear d) (sent_octets d.escape d.escape ++ rest) out
      ≡ decode (followed d d.escape) rest (out ++ d.escape ∷ [])
unfolding escape_character
decode-escape d rest out =
    let same : (d.escape == d.escape) ≡ true = ground arith in
    let octets : sent_octets d.escape d.escape ≡ d.escape ∷ eid ∷ [] = rw (same) in
    let escape : next_escape d.escape d.escape ≡ (d.escape + escape_step) % 2 ^ 8 = rw (same) in
    ap (λ x. decode (clear d) (x ++ rest) out) octets
    ∙ decode-escape_octets d rest out
    ∙ ap
        (λ x.
          decode (record (clear (receive d d.escape)) { escape = x }) rest (out ++ d.escape ∷ []))
        (sym escape)

decode-nil : (d : Decoder) (out : List ℕ) → decode d [] out ≡ ok (d, out)
unfolding decode
decode-nil d out = refl

decode-sent_octets :
    (d : Decoder) (c : ℕ) (rest out : List ℕ)
    → decode (clear d) (sent_octets d.escape c ++ rest) out
      ≡ decode (followed d c) rest (out ++ c ∷ [])
unfolding receive
decode-sent_octets d c rest out = elim (Bool-cases (c == d.escape)) [
  | inl h ↦
      subst
        (λ x.
          decode (clear d) (sent_octets d.escape x ++ rest) out
          ≡ decode (followed d x) rest (out ++ x ∷ []))
        (sym ((==_iff c d.escape).0 h)) (decode-escape d rest out)
  | inr h ↦
      let octets : sent_octets d.escape c ≡ c ∷ [] = rw (h) in
      let escape : next_escape d.escape c ≡ d.escape = rw (h) in
      ap (λ x. decode (clear d) (x ++ rest) out) octets
      ∙ decode-plain d c rest out h
      ∙ ap (λ x. decode (record (clear (receive d c)) { escape = x }) rest (out ++ c ∷ []))
          (sym escape)
]

-- Both ends share the matcher, the dictionary and the escape character.
abbrev pub Shared : Encoder → Decoder → Type 0
Shared e d = (view e).1 ≡ ((d.matcher, d.dictionary), d.escape)

view-character_transparent :
    (e : Encoder) (c : ℕ)
    → e.mode ≡ transparent
    → (character e c).mode ≡ transparent
    → view (character e c) ≡ (
      e.writer.out ++ sent_octets e.escape c,
      ((push e.matcher e.dictionary c).0, next_escape e.escape c),
    )
view-character_transparent e c t =
    subst
      (λ x.
        (character x c).mode ≡ transparent
        → view (character x c) ≡ (
          e.writer.out ++ sent_octets e.escape c,
          ((push e.matcher e.dictionary c).0, next_escape e.escape c),
        ))
      (ap (λ m. record e { mode = m }) (sym t)) (view-character e c)

Shared-character :
    (e : Encoder) (d : Decoder) (c : ℕ)
    → e.mode ≡ transparent
    → (character e c).mode ≡ transparent
    → Shared e d
    → Shared (character e c) (followed d c)
unfolding receive
Shared-character e d c t m h =
    ap (λ (v : View). v.1) (view-character_transparent e c t m)
    ∙ ap (λ (s : (Matcher × Dictionary) × ℕ). ((push s.0.0 s.0.1 c).0, next_escape s.1 c)) h

-- While the compressibility tests leave the encoder transparent, the decoder that shares its
-- matcher, dictionary and escape character recovers from the octets it writes exactly its input,
-- with no error, and shares all three with it afterwards: also where the input holds the escape
-- character.
pub decode-characters :
    (cs : List ℕ) (e : Encoder) (d : Decoder) (out : List ℕ)
    → e.mode ≡ transparent
    → StaysTransparent e cs
    → Shared e d
    → (octets : List ℕ) × (d' : Decoder) × ((characters e cs).writer.out ≡ e.writer.out ++ octets)
      × (decode (clear d) octets out ≡ ok (clear d', out ++ cs))
      × Shared (characters e cs) d'
unfolding characters
decode-characters [] e d out t stays h = (
  [],
  d,
  sym (append-nil e.writer.out),
  decode-nil (clear d) out ∙ ap (λ x. ok (clear d, x)) (sym (append-nil out)),
  h,
)
decode-characters (c ∷ cs) e d out t (m, stays) h =
    let e' = character e c in
    let (octets, d', written, read, shared) =
      decode-characters cs e' (followed d c) (out ++ c ∷ []) m stays
        (Shared-character e d c t m h) in
    let same : sent_octets e.escape c ≡ sent_octets d.escape c =
      ap (λ (s : (Matcher × Dictionary) × ℕ). sent_octets s.1 c) h in
    (
      sent_octets d.escape c ++ octets,
      d',
      written
          ∙ ap (λ (v : View). v.0 ++ octets) (view-character_transparent e c t m)
          ∙ append_assoc e.writer.out (sent_octets e.escape c) octets
          ∙ ap (λ x. e.writer.out ++ (x ++ octets)) same,
      decode-sent_octets d c octets out
          ∙ read
          ∙ ap (λ x. ok (clear d', x)) (append_assoc out (c ∷ []) cs),
      shared,
    )
