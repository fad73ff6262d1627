-- ===== src/Hdlc/RoundTrip.antt =====
-- What hdlc.rs sends, it finds: frames through `push_frame` and `Deframer::push`.
use softmodem_rs.Prelude.{
  ℕ, ◌+◌, ◌-◌, ◌*◌, ◌/◌, ◌%◌, ◌^◌, ◌≤◌, ◌<◌, ◌≡◌, ◌≢◌, refl, ap, ap₂, sym, ◌∙◌, Bool, true, false,
  List, [], ◌∷◌, ◌++◌, ◌==◌, ==_iff, All, All-append, arith, none, some, length, length-append,
  take, take-append, append_assoc, append-nil, holds_below, holds_below-true,
}
use softmodem_rs.Hdlc.{
  max_bits, fcs16, fcs_good, fcs_init, fcs_update, flag, checked, octet_of, octets_of, octet_bits,
  flag_octet, push, push_all, gather, push_flag, push_frame, new,
}
use softmodem_rs.Hdlc.Fcs.{IsOctet, fcs_update-fcs16, fcs_update_one_octet}
use softmodem_rs.Hdlc.Stuffing.{
  bits_of, stuffed, counted, counted-lt, inside, push_octets-out, push_all-stuffed, push_all-cons,
  push-inside_zero, push-inside_one,
}

octet_table : holds_below 256 (λ x. octet_of (octet_bits x) == x) ≡ true
unfolding holds_below octet_of
octet_table = refl

octet_of-octet_bits : (b : ℕ) → b < 256 → octet_of (octet_bits b) ≡ b
octet_of-octet_bits b h = (==_iff _ b).0 (holds_below-true 256 _ b octet_table h)

pub octets_of-bits_of : (bytes : List ℕ) → All IsOctet bytes → octets_of (bits_of bytes) ≡ bytes
unfolding octets_of
octets_of-bits_of [] h = refl
octets_of-bits_of (b ∷ bytes) h = ap₂ ◌∷◌ (octet_of-octet_bits b h.0) (octets_of-bits_of bytes h.1)

length-bits_of : (bytes : List ℕ) → length (bits_of bytes) ≡ 8 * length bytes
length-bits_of [] = refl
length-bits_of (b ∷ bytes) = omega (arith, length-bits_of bytes)

fcs16-IsOctet : (r : ℕ) → r < 2 ^ 16 → All IsOctet ((r % 256) ∷ (r / 256) ∷ [])
fcs16-IsOctet r h = omega arith

fcs16_octets : (frame : List ℕ) → All IsOctet frame → All IsOctet (fcs16 frame)
unfolding fcs16
fcs16_octets frame h = fcs16-IsOctet (0xffff - fcs_update fcs_init frame) (omega arith)

length-fcs16 : (frame : List ℕ) → length (fcs16 frame) ≡ 2
unfolding fcs16
length-fcs16 frame = refl

-- A frame and its FCS pass the check, and come back without the FCS.
pub checked-bits_of :
    (m : ℕ) (frame : List ℕ)
    → All IsOctet frame
    → m ≤ length frame
    → checked (bits_of (frame ++ fcs16 frame)) m ≡ some frame
unfolding checked
checked-bits_of m frame h k =
    let all = All-append IsOctet frame (fcs16 frame) h (fcs16_octets frame h) in
    let len : length (frame ++ fcs16 frame) ≡ length frame + 2 =
      omega (arith, length-append frame (fcs16 frame), length-fcs16 frame) in
    let cut : take (length (frame ++ fcs16 frame) - 2) (frame ++ fcs16 frame) ≡ frame =
      let e : length (frame ++ fcs16 frame) - 2 ≡ length frame = omega arith in
      rw e (take-append frame (fcs16 frame)) in
    rw (octets_of-bits_of (frame ++ fcs16 frame) all)
      (ground (arith, length-bits_of (frame ++ fcs16 frame), cut, fcs_update-fcs16 frame h))

abbrev closing : List Bool → List Bool
closing bits =
    ((((((bits ++ false ∷ []) ++ true ∷ []) ++ true ∷ []) ++ true ∷ []) ++ true ∷ []) ++ true ∷ [])
    ++ true ∷ []

closing-append :
    (bits : List Bool) → closing bits ≡ bits ++ false ∷ true ∷ true ∷ true ∷ true ∷ true ∷ true ∷ []
closing-append bits = simp append_assoc

closing_content : (bits : List Bool) → length (closing bits) - 7 ≡ length bits
closing_content bits =
    rw (closing-append bits)
      (omega (arith, length-append bits (false ∷ true ∷ true ∷ true ∷ true ∷ true ∷ true ∷ [])))

take-closing : (bits : List Bool) → take (length (closing bits) - 7) (closing bits) ≡ bits
take-closing bits = rw (closing_content bits, closing-append bits) (take-append bits _)

module _ (m flags bad : ℕ) where
  -- The flag that closes a frame whose bits pass the check.
  flag-frame :
      (bits : List Bool) (frame : List ℕ)
      → 0 < length bits
      → checked bits m ≡ some frame
      → flag (inside m (closing bits) 0 flags bad) ≡ (inside m [] 0 0 bad, some frame)
  unfolding flag
  flag-frame bits frame pos good = rw (take-closing bits, closing_content bits, good) (ground arith)

  push-flag_frame :
      (bits : List Bool) (frame : List ℕ)
      → 0 < length bits
      → checked bits m ≡ some frame
      → push (inside m (closing bits) 6 flags bad) false ≡ (inside m [] 0 0 bad, some frame)
  unfolding push
  push-flag_frame bits frame pos good = flag-frame bits frame pos good

  push_all-closing_flag :
      (bits : List Bool) (ones : ℕ) (frame : List ℕ) (rest : List Bool)
      → ones < 5
      → length bits + 1 ≤ max_bits
      → 0 < length bits
      → checked bits m ≡ some frame
      → push_all (inside m bits ones flags bad) (octet_bits flag_octet ++ rest)
        ≡ gather (some frame) (push_all (inside m [] 0 0 bad) rest)
  push_all-closing_flag bits ones frame rest h k pos good =
      push_all-cons _ _ none false _ (push-inside_zero m flags bad bits ones h k)
      ∙ push_all-cons _ _ none true _ (push-inside_one m flags bad _ 0 (omega arith))
      ∙ push_all-cons _ _ none true _ (push-inside_one m flags bad _ 1 (omega arith))
      ∙ push_all-cons _ _ none true _ (push-inside_one m flags bad _ 2 (omega arith))
      ∙ push_all-cons _ _ none true _ (push-inside_one m flags bad _ 3 (omega arith))
      ∙ push_all-cons _ _ none true _ (push-inside_one m flags bad _ 4 (omega arith))
      ∙ push_all-cons _ _ none true _ (push-inside_one m flags bad _ 5 (omega arith))
      ∙ push_all-cons _ _ (some frame) false rest (push-flag_frame bits frame pos good)

-- A frame with one octet changed on the way, in its content or in its FCS, is not accepted.
pub checked_one_octet :
    (m : ℕ) (frame pre post : List ℕ) (b b' : ℕ)
    → All IsOctet frame
    → All IsOctet pre
    → All IsOctet post
    → b < 256
    → b' < 256
    → frame ++ fcs16 frame ≡ pre ++ b ∷ post
    → b ≢ b'
    → checked (bits_of (pre ++ b' ∷ post)) m ≡ none
unfolding checked
checked_one_octet m frame pre post b b' hf hpre hpost hb hb' e ne =
    let other = fcs_update_one_octet pre post b b' hpre hpost hb hb' in
    let good : fcs_update fcs_init (pre ++ b ∷ post) ≡ fcs_good =
      ap (fcs_update fcs_init) (sym e) ∙ fcs_update-fcs16 frame hf in
    rw (octets_of-bits_of (pre ++ b' ∷ post) (All-append IsOctet pre (b' ∷ post) hpre (hb', hpost)))
      (ground (arith, other, good))

-- A frame fits the deframer's bound.
abbrev pub Fits : ℕ → List ℕ → Type 0
Fits m frame = All IsOctet frame × (m ≤ length frame) × (length frame < 4198)

push_frame-bits :
    (frame : List ℕ) (out : List Bool)
    → push_frame frame out
      ≡ (out ++ stuffed 0 (bits_of (frame ++ fcs16 frame))) ++ octet_bits flag_octet
unfolding push_frame push_flag
push_frame-bits frame out =
    ap (λ t. t ++ octet_bits flag_octet) (push_octets-out out (frame ++ fcs16 frame))

push_all-frame :
    (m flags bad : ℕ) (frame : List ℕ) (rest : List Bool)
    → Fits m frame
    → push_all
        (inside m [] 0 flags bad)
        (stuffed 0 (bits_of (frame ++ fcs16 frame)) ++ (octet_bits flag_octet ++ rest))
      ≡ gather (some frame) (push_all (inside m [] 0 0 bad) rest)
push_all-frame m flags bad frame rest fit =
    let xs = bits_of (frame ++ fcs16 frame) in
    let len : length xs ≡ 8 * length frame + 16 = omega (
      arith,
      length-bits_of (frame ++ fcs16 frame),
      length-append frame (fcs16 frame),
      length-fcs16 frame,
    ) in
    push_all-stuffed m flags bad xs [] 0 _ (omega arith) (omega arith)
    ∙ push_all-closing_flag m flags bad xs (counted 0 xs) frame rest (counted-lt 0 xs (omega arith))
        (omega arith) (omega arith) (checked-bits_of m frame fit.0 fit.1)

-- The octet frames of a transmission, one after the other, each with its closing flag.
abbrev pub body : List ℕ → List Bool
body frame = stuffed 0 (bits_of (frame ++ fcs16 frame))

abbrev framed : List (List ℕ) → List Bool
framed [] = []
framed (frame ∷ frames) = body frame ++ (octet_bits flag_octet ++ framed frames)

-- `push_frame` once for each frame, after `out`.
pub push_frames : List (List ℕ) → List Bool → List Bool
push_frames [] out = out
push_frames (frame ∷ frames) out = push_frames frames (push_frame frame out)

push_frames-out :
    (frames : List (List ℕ)) (out : List Bool) → push_frames frames out ≡ out ++ framed frames
unfolding push_frames
push_frames-out [] out = rw append-nil
push_frames-out (frame ∷ frames) out =
    push_frames-out frames (push_frame frame out)
    ∙ ap (λ t. t ++ framed frames) (push_frame-bits frame out)
    ∙ simp append_assoc

push_all-framed :
    (m flags bad : ℕ) (frames : List (List ℕ))
    → All (Fits m) frames
    → ((push_all (inside m [] 0 flags bad) (framed frames)).1 ≡ frames)
      × ((push_all (inside m [] 0 flags bad) (framed frames)).0.bad_frames ≡ bad)
push_all-framed m flags bad [] fit = unfold push_all in (refl, refl)
push_all-framed m flags bad (frame ∷ frames) fit =
    let (all, none_bad) = push_all-framed m 0 bad frames fit.1 in
    rw (push_all-frame m flags bad frame (framed frames) fit.0) (ap (λ t. frame ∷ t) all, none_bad)

opening :
    (m : ℕ) (rest : List Bool)
    → push_all (new m) (octet_bits flag_octet ++ rest) ≡ push_all (inside m [] 0 1 0) rest
opening m rest = unfold push_all push new flag in refl

-- Whatever frames are sent after an opening flag, each of octets, not shorter than the deframer
-- wants and shorter than 4198 octets, a new deframer finds these frames, in order, and counts no
-- bad one.
pub push_all-push_frames :
    (m : ℕ) (frames : List (List ℕ))
    → All (Fits m) frames
    → ((push_all (new m) (push_frames frames (push_flag []))).1 ≡ frames)
      × ((push_all (new m) (push_frames frames (push_flag []))).0.bad_frames ≡ 0)
push_all-push_frames m frames fit =
    rw (push_frames-out frames (push_flag []))
      (unfold push_flag in rw (opening m (framed frames)) (push_all-framed m 1 0 frames fit))
