-- ===== src/Frame/RoundTrip.antt =====
-- `Frame::bytes` and `Frame::parse` are inverse to one another.
use softmodem_rs.Prelude.{
  ℕ, subst, ◌+◌, ◌*◌, ◌/◌, ◌%◌, ◌<◌, ◌≡◌, refl, Bool, true, false, Option, none, some, List, [],
  ◌∷◌, ◌++◌, ◌==◌, ==_iff, All, arith, bit_and, holds_below, holds_below-true, ◌⊎◌,
}
use softmodem_rs.Frame.{
  rr, srej, Unnumbered, sabme, all, code, takes_info, Control, i_format, s_format, u_format, Frame,
  Rejected, bytes, control_bytes, numbered, unnumbered, find_code, from_bool, to_frame, parse,
}
use softmodem_rs.Prelude.Result.{Result, ok, err, ◌>>=◌}

-- What a frame may hold: seven-bit numbers, and information only where it is allowed.
abbrev pub IsControl : Control → List ℕ → Type 0
IsControl (i_format ns nr poll) info = (ns < 128) × (nr < 128)
IsControl (s_format srej nr pf) info = nr < 128
IsControl (s_format kind nr pf) info = (nr < 128) × (info ≡ [])
IsControl (u_format kind pf) info = (takes_info kind ≡ true) ⊎ (info ≡ [])

abbrev pub IsFrame : Frame → Type 0
IsFrame f = IsControl f.control f.info

parse-bytes_parts :
    (cr : Bool) (c : Control) (info : List ℕ)
    → IsControl c info
    → parse (bytes (record { cr = cr; control = c; info = info }))
      ≡ ok (record { cr = cr; control = c; info = info })
unfolding parse bytes numbered unnumbered find_code
parse-bytes_parts true (i_format ns nr true) info h = ground arith
parse-bytes_parts _ (i_format ns nr pf) info h = ground arith
parse-bytes_parts _ (s_format rr nr pf) info h = ground arith
parse-bytes_parts _ (s_format kind nr pf) info h = ground arith
parse-bytes_parts true (u_format sabme true) info h = ground arith
parse-bytes_parts _ (u_format kind pf) info h = ground arith

-- Every frame of seven-bit numbers, with information only where it is allowed, is read back as it
-- was.
pub parse-bytes : (f : Frame) → IsFrame f → parse (bytes f) ≡ ok f
parse-bytes f h = parse-bytes_parts f.cr f.control f.info h

abbrev code_matches : Option Unnumbered → ℕ → Bool
code_matches none x = true
code_matches (some kind) x = code kind + from_bool (x / 16 % 2 == 1) * 16 == x

code_table : holds_below 256 (λ x. code_matches (find_code all (bit_and x 0xef)) x) ≡ true
unfolding holds_below find_code
code_table = refl

code-find_code :
    (x : ℕ) (kind : Unnumbered)
    → x < 256
    → find_code all (bit_and x 0xef) ≡ some kind
    → code kind + from_bool (x / 16 % 2 == 1) * 16 ≡ x
code-find_code x kind h e =
    (==_iff _ x).0 (subst (λ o. code_matches o x ≡ true) e (holds_below-true 256 _ x code_table h))

unnumbered-bytes :
    (first : ℕ) (rest : List ℕ) (c : Control) (info : List ℕ)
    → first < 256
    → unnumbered first rest ≡ ok (c, info)
    → (control_bytes c ++ info ≡ first ∷ rest) × IsControl c info
unfolding unnumbered control_bytes
unnumbered-bytes first rest (u_format kind pf) info h e =
    ground (arith, code-find_code first kind h)
unnumbered-bytes first rest c info h e = ground arith

numbered-bytes :
    (first : ℕ) (rest : List ℕ) (c : Control) (info : List ℕ)
    → first < 256
    → All (λ b. b < 256) rest
    → numbered first rest ≡ ok (c, info)
    → (control_bytes c ++ info ≡ first ∷ rest) × IsControl c info
unfolding numbered control_bytes
numbered-bytes first [] c info h hs e = cc
numbered-bytes first (second ∷ rest) (i_format ns nr true) info h hs e = ground arith
numbered-bytes first (second ∷ rest) (i_format ns nr false) info h hs e = ground arith
numbered-bytes first (second ∷ rest) (s_format rr nr true) info h hs e = ground arith
numbered-bytes first (second ∷ rest) (s_format kind nr pf) info h hs e = ground arith
numbered-bytes first (second ∷ rest) c info h hs e = ground arith

parse_fields :
    (cr : Bool) (r : Result Rejected (Control × List ℕ)) (f : Frame)
    → (r >>= to_frame cr) ≡ ok f
    → (r ≡ ok (f.control, f.info)) × (f.cr ≡ cr)
parse_fields cr (ok (c, info)) f e = ground arith
parse_fields cr (err x) f e = cc

-- What is read is a frame, and is written back octet for octet.
pub bytes-parse :
    (bs : List ℕ) (f : Frame) → All (λ b. b < 256) bs → parse bs ≡ ok f → (bytes f ≡ bs) × IsFrame f
bytes-parse [] f hs e = unfold parse in cc
bytes-parse (a ∷ []) f hs e = unfold parse in cc
bytes-parse (a ∷ first ∷ rest) f hs e =
    unfold parse bytes in
    ground (
      arith,
      parse_fields (a / 2 % 2 == 1) (numbered first rest) f,
      parse_fields (a / 2 % 2 == 1) (unnumbered first rest) f,
      numbered-bytes first rest f.control f.info hs.1.0 hs.1.1,
      unnumbered-bytes first rest f.control f.info hs.1.0,
    )
