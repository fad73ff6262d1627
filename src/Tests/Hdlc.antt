-- ===== src/Tests/Hdlc.antt =====
-- hdlc.rs at concrete inputs.
use softmodem_rs.Prelude.{ℕ, ◌≡◌, List, [], ◌∷◌, ◌++◌, none, refl, arith}
use softmodem_rs.Hdlc.{fcs16, fcs_update, fcs_shift, checked, push_flag, push_all, new}
use softmodem_rs.Hdlc.RoundTrip.{push_frames, push_all-push_frames, checked_one_octet}
use softmodem_rs.Hdlc.Stuffing.{bits_of}

abbrev two_frames : List (List ℕ)
two_frames = (0x03 ∷ 0x3f ∷ []) ∷ (0x7e ∷ 0xff ∷ 0x1f ∷ 0x7d ∷ []) ∷ []

push_all-push_frames_example :
    ((push_all (new 2) (push_frames two_frames (push_flag []))).1 ≡ two_frames)
    × ((push_all (new 2) (push_frames two_frames (push_flag []))).0.bad_frames ≡ 0)
push_all-push_frames_example = push_all-push_frames 2 two_frames (omega arith)

-- The frame of the source's test, with the first octet changed.
checked_one_octet_example :
    checked (bits_of ([] ++ 0x02 ∷ (0x3f ∷ fcs16 (0x03 ∷ 0x3f ∷ [])))) 2 ≡ none
unfolding fcs16 fcs_update fcs_shift
checked_one_octet_example =
    checked_one_octet 2 (0x03 ∷ 0x3f ∷ []) [] (0x3f ∷ fcs16 (0x03 ∷ 0x3f ∷ [])) 0x03 0x02
      (omega arith) tt (omega arith) (omega arith) (omega arith) refl (omega arith)
