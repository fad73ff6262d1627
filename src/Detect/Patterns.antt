-- ===== src/Detect/Patterns.antt =====
-- The detection patterns of detect.rs are heard, through the start-stop decoder, after two of them.
use softmodem_rs.Prelude.{
  ℕ, ◌≤◌, ◌≡◌, refl, ap, ◌∙◌, ◌↔◌, ◌⊎◌, inl, inr, Bool, true, false, some, List, [], ◌∷◌, length,
  arith,
}
use softmodem_rs.Uart.{Decoder, idle, frame}
use softmodem_rs.Uart.RoundTrip.{at}
use softmodem_rs.Uart
use softmodem_rs.Detect.{
  Adp, lapm, no_error_correction, push_pattern, push_odp, push_adp, second, Heard, push, odp, adp,
  push_all,
}

odp_bits :
    (errors : ℕ) (v14 : Bool)
    → Uart.push_all (at errors v14 false idle) (push_odp (push_odp []))
      ≡ (at errors v14 false idle, 17 ∷ 145 ∷ 17 ∷ 145 ∷ [])
unfolding Uart.push_all Uart.push Uart.step push_odp push_pattern frame
odp_bits errors v14 = refl

adp_bits :
    (errors : ℕ) (v14 : Bool) (a : Adp)
    → Uart.push_all (at errors v14 false idle) (push_adp (push_adp [] a) a)
      ≡ (at errors v14 false idle, 69 ∷ second a ∷ 69 ∷ second a ∷ [])
unfolding Uart.push_all Uart.push Uart.step push_adp push_pattern frame
adp_bits errors v14 lapm = refl
adp_bits errors v14 no_error_correction = refl

-- After four characters, what was heard before is gone.
push_all-four :
    (last : List ℕ) (p q r s : ℕ)
    → length last ≤ 4
    → push_all (record { last = last }) (p ∷ q ∷ r ∷ s ∷ []) ≡ record { last = p ∷ q ∷ r ∷ s ∷ [] }
unfolding push_all push
push_all-four [] p q r s le = refl
push_all-four (a ∷ []) p q r s le = refl
push_all-four (a ∷ b ∷ []) p q r s le = refl
push_all-four (a ∷ b ∷ c ∷ []) p q r s le = refl
push_all-four (a ∷ b ∷ c ∷ d ∷ []) p q r s le = refl
push_all-four (a ∷ b ∷ c ∷ d ∷ e ∷ rest) p q r s le = absurd (omega arith)

adp-second : (a : Adp) → adp (record { last = 69 ∷ second a ∷ 69 ∷ second a ∷ [] }) ≡ some a
unfolding adp
adp-second lapm = refl
adp-second no_error_correction = refl

odp-lists :
    (last : List ℕ)
    → odp (record { last = last }) ≡ true
    → (last ≡ 17 ∷ 145 ∷ 17 ∷ 145 ∷ []) ⊎ (last ≡ 145 ∷ 17 ∷ 145 ∷ 17 ∷ [])
unfolding odp
odp-lists [] h = absurd (ground arith)
odp-lists (a ∷ []) h = absurd (ground arith)
odp-lists (a ∷ b ∷ []) h = absurd (ground arith)
odp-lists (a ∷ b ∷ c ∷ []) h = absurd (ground arith)
odp-lists (a ∷ b ∷ c ∷ d ∷ []) h = ground arith
odp-lists (a ∷ b ∷ c ∷ d ∷ e ∷ rest) h = absurd (ground arith)

odp_found :
    (last : List ℕ)
    → (last ≡ 17 ∷ 145 ∷ 17 ∷ 145 ∷ []) ⊎ (last ≡ 145 ∷ 17 ∷ 145 ∷ 17 ∷ [])
    → odp (record { last = last }) ≡ true
unfolding odp
odp_found last (inl e) = rw (e)
odp_found last (inr e) = rw (e)

-- What the pattern detector has heard of bits that come to a start-stop decoder.
abbrev pub heard : Heard → Decoder → List Bool → Heard
heard h d bits = push_all h (Uart.push_all d bits).1

-- From an idle decoder, with V.14 or without, and a detector that holds four characters at most,
-- two originator patterns in a row are heard as the originator's, and two answerer patterns of one
-- kind as the answerer's of that kind.
pub heard-two_patterns :
    (errors : ℕ) (v14 : Bool) (h : Heard)
    → length h.last ≤ 4
    → (odp (heard h (at errors v14 false idle) (push_odp (push_odp []))) ≡ true)
      × ((a : Adp) → adp (heard h (at errors v14 false idle) (push_adp (push_adp [] a) a)) ≡ some a)
heard-two_patterns errors v14 h le = (
  ap (λ (x : Decoder × List ℕ). odp (push_all h x.1)) (odp_bits errors v14)
      ∙ ap odp (push_all-four h.last 17 145 17 145 le)
      ∙ (unfold odp in refl),
  λ a.
      ap (λ (x : Decoder × List ℕ). adp (push_all h x.1)) (adp_bits errors v14 a)
      ∙ ap adp (push_all-four h.last 69 (second a) 69 (second a) le)
      ∙ adp-second a,
)

-- The detector reports the originator's pattern exactly on four DC1s of alternating parity.
pub odp_iff :
    (h : Heard)
    → (odp h ≡ true) ↔ ((h.last ≡ 17 ∷ 145 ∷ 17 ∷ 145 ∷ []) ⊎ (h.last ≡ 145 ∷ 17 ∷ 145 ∷ 17 ∷ []))
odp_iff h = (odp-lists h.last, odp_found h.last)
