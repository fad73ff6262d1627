-- ===== src/Frame.antt =====
-- softmodem-link/src/frame.rs: the address, control and information fields of LAPM frames.
-- An octet is a number below 256. `a << k | b` with `b < 2 ^ k` is `a * 2 ^ k + b`, `a >> k` is
-- `a / 2 ^ k`, and a test of one bit, `a & 2 ^ k != 0`, is `a / 2 ^ k % 2 == 1`.
pub mod RoundTrip
use softmodem_rs.Prelude.{
  ℕ, ◌+◌, ◌*◌, ◌/◌, ◌%◌, ◌^◌, Bool, true, false, not, ◌&&◌, ◌||◌, Option, none, some, List, [], ◌∷◌,
  ◌++◌, bit_and, ◌==◌, if◌then◌else◌,
}
use softmodem_rs.Prelude.Result.{Result, ok, err, ◌>>=◌}

abbrev pub dlci : ℕ
dlci = 0

pub data Supervisory : Type 0 where
  rr rnr rej srej : Supervisory

-- `kind as u8`
abbrev pub number : Supervisory → ℕ
number rr = 0
number rnr = 1
number rej = 2
number srej = 3

pub data Unnumbered : Type 0 where
  sabme dm ui disc ua frmr xid test_frame : Unnumbered

abbrev pub all : List Unnumbered
all = sabme ∷ dm ∷ ui ∷ disc ∷ ua ∷ frmr ∷ xid ∷ test_frame ∷ []

abbrev pub code : Unnumbered → ℕ
code sabme = 0x6f
code dm = 0x0f
code ui = 0x03
code disc = 0x43
code ua = 0x63
code frmr = 0x87
code xid = 0xaf
code test_frame = 0xe3

abbrev pub takes_info : Unnumbered → Bool
takes_info ui = true
takes_info frmr = true
takes_info xid = true
takes_info test_frame = true
takes_info _ = false

pub data Control : Type 0 where
  i_format : ℕ → ℕ → Bool → Control
  s_format : Supervisory → ℕ → Bool → Control
  u_format : Unnumbered → Bool → Control

pub record Frame : Type 0 where
  pub cr : Bool
  pub control : Control
  pub info : List ℕ

pub data Rejected : Type 0 where
  invalid undefined : Rejected

-- `u8::from(b)`
abbrev pub from_bool : Bool → ℕ
from_bool true = 1
from_bool false = 0

unfoldable pub new : Bool → Control → Frame
new cr control = record { cr = cr; control = control; info = [] }

unfoldable pub with_info : Frame → List ℕ → Frame
with_info f info = record f { info = info }

unfoldable pub control_bytes : Control → List ℕ
control_bytes (i_format ns nr poll) = (ns * 2 % 256) ∷ (nr * 2 % 256 + from_bool poll) ∷ []
control_bytes (s_format kind nr pf) = (number kind * 4 + 1) ∷ (nr * 2 % 256 + from_bool pf) ∷ []
-- No code has the P/F bit.
control_bytes (u_format kind pf) = (code kind + from_bool pf * 16) ∷ []

unfoldable pub bytes : Frame → List ℕ
unfolding control_bytes
bytes f = (dlci * 4 + from_bool f.cr * 2 + 1) ∷ (control_bytes f.control ++ f.info)

-- The match on the first octet of a supervisory frame.
unfoldable pub supervisory : ℕ → Result Rejected Supervisory
supervisory first =
    if first == 0x01
    then ok rr
    else if first == 0x05
    then ok rnr
    else if first == 0x09
    then ok rej
    else if first == 0x0d
    then ok srej
    else err undefined

abbrev is_srej : Supervisory → Bool
is_srej srej = true
is_srej _ = false

abbrev is_empty : List ℕ → Bool
is_empty [] = true
is_empty (_ ∷ _) = false

unfoldable pub numbered : ℕ → List ℕ → Result Rejected (Control × List ℕ)
unfolding supervisory
numbered first [] = err invalid
numbered first (second ∷ info) =
    let nr = second / 2 in
    let pf = second % 2 == 1 in
    if first % 2 == 0 then ok (i_format (first / 2) nr pf, info) else (do
      kind ← supervisory first
      if not (is_empty info) && not (is_srej kind)
          then err undefined
          else ok (s_format kind nr pf, info))

-- `Unnumbered::ALL.into_iter().find(|k| k.code() == first & !0x10)`
unfoldable pub find_code : List Unnumbered → ℕ → Option Unnumbered
find_code [] c = none
find_code (k ∷ ks) c = if code k == c then some k else find_code ks c

abbrev ok_or : Option Unnumbered → Result Rejected Unnumbered
ok_or none = err undefined
ok_or (some k) = ok k

unfoldable pub unnumbered : ℕ → List ℕ → Result Rejected (Control × List ℕ)
unnumbered first rest = do
  kind ← ok_or (find_code all (bit_and first 0xef))
  if not (is_empty rest) && not (takes_info kind)
      then err undefined
      else ok (u_format kind (first / 16 % 2 == 1), rest)

abbrev to_frame : Bool → Control × List ℕ → Result Rejected Frame
to_frame cr (control, info) = ok (record { cr = cr; control = control; info = info })

unfoldable pub parse : List ℕ → Result Rejected Frame
parse (address ∷ first ∷ rest) =
    if address % 2 == 0 || not (address / 4 == dlci)
    then err invalid
    else if first % 2 == 0 || first % 4 == 1
    then numbered first rest >>= to_frame (address / 2 % 2 == 1)
    else unnumbered first rest >>= to_frame (address / 2 % 2 == 1)
parse _ = err invalid
