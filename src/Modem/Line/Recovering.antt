-- ===== src/Modem/Line/Recovering.antt =====
-- `Recovery` of softmodem/src/line.rs: data mode with no sound bits for a while renegotiates first, and
-- then retrains. Instants are in nanoseconds, and the time since a later instant is 0.
pub mod Silence
use softmodem_rs.Prelude.{
  ℕ, ◌-◌, max, Bool, not, if◌then◌else◌, Option, none, some, List, [], ◌∷◌, ◌++◌, ltb,
}

abbrev pub quiet : ℕ
quiet = 2_000_000_000

pub data Action : Type 0 where
  renegotiate : Action
  retrain : Action

pub record Recovery : Type 0 where
  pub quiet_from : Option ℕ
  pub tried : Option (Action × ℕ)

abbrev pub new : Recovery
new = record { quiet_from = none; tried = none }

-- What was tried, forgotten if sound came after it.
abbrev pub still_tried : Option (Action × ℕ) → Option ℕ → Option (Action × ℕ)
still_tried none sound = none
still_tried (some (a, at)) none = some (a, at)
still_tried (some (a, at)) (some sound) = if ltb at sound then none else some (a, at)

abbrev pub or_now : Option ℕ → ℕ → ℕ
or_now none now = now
or_now (some from) now = from

abbrev pub no_earlier : ℕ → Option ℕ → ℕ
no_earlier from none = from
no_earlier from (some sound) = max from sound

abbrev pub next_action : Option (Action × ℕ) → Option Action
next_action none = some renegotiate
next_action (some (renegotiate, at)) = some retrain
next_action (some (retrain, at)) = none

abbrev pub try : Option Action → ℕ → Recovery → Recovery × Option Action
try none now r = (r, none)
try (some a) now r = (record { quiet_from = some now; tried = some (a, now) }, some a)

unfoldable pub poll : Recovery → ℕ → Bool → Option ℕ → Recovery × Option Action
poll r now in_data sound =
    let tried = still_tried r.tried sound in
    let from = no_earlier (or_now r.quiet_from now) sound in
    let r' : Recovery = record { quiet_from = some from; tried = tried } in
    if not in_data
    then (record r { quiet_from = none }, none)
    else if ltb (now - from) quiet
    then (r', none)
    else try (next_action tried) now r'

-- A poll: the time, whether in data mode, and when sound bits last came.
pub record Polled : Type 0 where
  pub now : ℕ
  pub in_data : Bool
  pub sound : Option ℕ

abbrev pub taken : Option Action → List Action
taken none = []
taken (some a) = a ∷ []

abbrev pub poll_all : List Polled → Recovery → Recovery × List Action
poll_all [] r = (r, [])
poll_all (p ∷ ps) r =
    let (r', action) = poll r p.now p.in_data p.sound in
    let (r'', actions) = poll_all ps r' in (r'', taken action ++ actions)
