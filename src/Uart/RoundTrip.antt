-- ===== src/Uart/RoundTrip.antt =====
-- The decoder of uart.rs recovers the characters that a sender frames, also one that leaves out
-- stop bits as V.14 allows.
use softmodem_rs.Prelude.{
  ℕ, ◌+◌, ◌*◌, ◌^◌, ◌<◌, ◌≡◌, refl, ap, ◌∙◌, Bool, true, false, not, ◌&&◌, ◌||◌, Option, some, List,
  [], ◌∷◌, ◌++◌, bit_or, ◌==◌, ==_iff, All, arith, holds_below, holds_below-true,
}
use softmodem_rs.Uart.{
  octet_bits, frame, State, idle, receiving, stop, Decoder, from_bool, step, push, push_all, gather,
}

-- A character, and whether its stop bit is left out.
abbrev pub Sent : Type 0
Sent = ℕ × Bool

unfoldable pub line : List Sent → List Bool
line [] = []
line ((byte, false) ∷ cs) = frame byte ++ line cs
line ((byte, true) ∷ cs) = false ∷ (octet_bits byte ++ line cs)

-- Stop bits are left out only under V.14, never two in a row and never the last; `before` tells
-- whether the one before was.
unfoldable pub allowed : Bool → Bool → List Sent → Bool
allowed v14 before [] = not before
allowed v14 before ((byte, deleted) ∷ cs) =
    (not deleted || (v14 && not before)) && allowed v14 deleted cs

unfoldable pub characters : List Sent → List ℕ
characters [] = []
characters ((byte, _) ∷ cs) = byte ∷ characters cs

abbrev pub IsSent : Sent → Type 0
IsSent c = c.0 < 256

abbrev after_start : Sent → List Sent → List Bool
after_start (b, false) cs = octet_bits b ++ true ∷ line cs
after_start (b, true) cs = octet_bits b ++ line cs

line-after_start : (c : Sent) (cs : List Sent) → line (c ∷ cs) ≡ false ∷ after_start c cs
unfolding line frame
line-after_start (b, false) cs = refl
line-after_start (b, true) cs = refl

allowed-deleted :
    (v14 before : Bool) (b : ℕ) (cs : List Sent)
    → allowed v14 before ((b, true) ∷ cs) ≡ true
    → ((v14 && not before) ≡ true) × (allowed v14 true cs ≡ true)
unfolding allowed
allowed-deleted v14 before b cs h = ground arith

characters_lem :
    (b : ℕ) (deleted : Bool) (cs : List Sent) (d : Decoder)
    → gather (some b) (d, characters cs) ≡ (d, characters ((b, deleted) ∷ cs))
unfolding characters
characters_lem b deleted cs d = refl

push_all-cons :
    (d d' : Decoder) (o : Option ℕ) (bit : Bool) (bits : List Bool)
    → push d bit ≡ (d', o)
    → push_all d (bit ∷ bits) ≡ gather o (push_all d' bits)
unfolding push_all
push_all-cons d d' o bit bits e = ap (λ (p : Decoder × Option ℕ). gather p.1 (push_all p.0 bits)) e

-- The octet that eight data bits build up.
abbrev assembled : ℕ → ℕ → List Bool → ℕ
assembled byte count [] = byte
assembled byte count (bit ∷ bits) =
    assembled (bit_or byte (from_bool bit * 2 ^ count)) (count + 1) bits

assembled_table : holds_below 256 (λ b. assembled 0 0 (octet_bits b) == b) ≡ true
unfolding holds_below
assembled_table = refl

assembled-octet_bits : (b : ℕ) → b < 256 → assembled 0 0 (octet_bits b) ≡ b
assembled-octet_bits b h = (==_iff _ b).0 (holds_below-true 256 _ b assembled_table h)

module _ (errors : ℕ) (v14 deleted : Bool) where
  abbrev pub at : State → Decoder
  at s = record { state = s; framing_errors = errors; v14 = v14; deleted_stop = deleted }

  push_all-data_bits :
      (b : ℕ) (rest : List Bool)
      → push_all (at (receiving 0 0)) (octet_bits b ++ rest)
        ≡ push_all (at (stop (assembled 0 0 (octet_bits b)))) rest
  unfolding push_all push step
  push_all-data_bits b rest = refl

  push_all-octet_bits :
      (b : ℕ) (rest : List Bool)
      → b < 256
      → push_all (at (receiving 0 0)) (octet_bits b ++ rest) ≡ push_all (at (stop b)) rest
  push_all-octet_bits b rest h =
      push_all-data_bits b rest ∙ ap (λ x. push_all (at (stop x)) rest) (assembled-octet_bits b h)

module _ (errors : ℕ) (v14 : Bool) where
  push_all-stop_bit :
      (before : Bool) (b : ℕ) (rest : List Bool)
      → push_all (at errors v14 before (stop b)) (true ∷ rest)
        ≡ gather (some b) (push_all (at errors v14 false idle) rest)
  unfolding push_all push step
  push_all-stop_bit before b rest = refl

  push_all-start_bit :
      (before : Bool) (rest : List Bool)
      → push_all (at errors v14 before idle) (false ∷ rest)
        ≡ push_all (at errors v14 before (receiving 0 0)) rest
  unfolding push_all push step
  push_all-start_bit before rest = refl

  push_all-no_more :
      (b : ℕ) (deleted : Bool)
      → gather (some b) (push_all (at errors v14 false idle) (line []))
        ≡ (at errors v14 false idle, characters ((b, deleted) ∷ []))
  unfolding push_all line characters
  push_all-no_more b deleted = refl

  push-deleted_stop_bit :
      (before : Bool) (b : ℕ)
      → (v14 && not before) ≡ true
      → push (at errors v14 before (stop b)) false ≡ (at errors v14 true (receiving 0 0), some b)
  unfolding push step
  push-deleted_stop_bit before b h = rw (h)

  -- A character whose start bit has come, and all that follows.
  push_all-after_start :
      (before : Bool) (c : Sent) (cs : List Sent)
      → allowed v14 before (c ∷ cs) ≡ true
      → All IsSent (c ∷ cs)
      → push_all (at errors v14 before (receiving 0 0)) (after_start c cs)
        ≡ (at errors v14 false idle, characters (c ∷ cs))
  push_all-after_start before (b, false) [] ok (h, _) =
      push_all-octet_bits errors v14 before b (true ∷ line []) h
      ∙ push_all-stop_bit before b (line [])
      ∙ push_all-no_more b false
  push_all-after_start before (b, false) (c ∷ cs) ok (h, hs) =
      push_all-octet_bits errors v14 before b (true ∷ line (c ∷ cs)) h
      ∙ push_all-stop_bit before b (line (c ∷ cs))
      ∙ ap (λ bits. gather (some b) (push_all (at errors v14 false idle) bits))
          (line-after_start c cs)
      ∙ ap (gather (some b)) (push_all-start_bit false (after_start c cs))
      ∙ ap (gather (some b)) (push_all-after_start false c cs (unfold allowed in ok) hs)
      ∙ characters_lem b false (c ∷ cs) _
  push_all-after_start before (b, true) [] ok (h, _) = absurd (unfold allowed in ground arith)
  push_all-after_start before (b, true) (c ∷ cs) ok (h, hs) =
      let (may, rest) = allowed-deleted v14 before b (c ∷ cs) ok in
      push_all-octet_bits errors v14 before b (line (c ∷ cs)) h
      ∙ ap (push_all (at errors v14 before (stop b))) (line-after_start c cs)
      ∙ push_all-cons _ _ (some b) false (after_start c cs) (push-deleted_stop_bit before b may)
      ∙ ap (gather (some b)) (push_all-after_start true c cs rest hs)
      ∙ characters_lem b true (c ∷ cs) _

  -- Pushing the line of characters below 256, with stop bits left out only where V.14 allows it
  -- (nowhere, for a decoder made without it), into an idle decoder gives these characters in
  -- order, and leaves it idle with the framing errors it had.
  pub push_all-line :
      (cs : List Sent)
      → allowed v14 false cs ≡ true
      → All IsSent cs
      → push_all (at errors v14 false idle) (line cs) ≡ (at errors v14 false idle, characters cs)
  push_all-line [] ok sent = unfold push_all line characters in refl
  push_all-line (c ∷ cs) ok sent =
      ap (push_all (at errors v14 false idle)) (line-after_start c cs)
      ∙ push_all-start_bit false (after_start c cs)
      ∙ push_all-after_start false c cs ok sent
