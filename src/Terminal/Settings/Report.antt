-- ===== src/Terminal/Settings/Report.antt =====
-- How settings.rs reports a result to the computer.
use softmodem_rs.Prelude.{
  ℕ, zero, suc, ◌+◌, ◌/◌, ◌%◌, not, ◌||◌, List, [], ◌∷◌, ◌++◌, ◌==◌, ltb, if◌then◌else◌,
}
use softmodem_rs.Terminal.Settings.{Settings, register, terminator}

pub data ResultCode : Type 0 where
  ok : ResultCode
  connect : ResultCode
  connect_1200 : ResultCode
  connect_2400 : ResultCode
  connect_at : ℕ → ResultCode
  ring : ResultCode
  no_carrier : ResultCode
  error : ResultCode
  no_dialtone : ResultCode
  busy : ResultCode

-- A number as `{}` prints it, in at most as many digits as the fuel.
abbrev pub digits : ℕ → ℕ → List ℕ
digits zero n = []
digits (suc fuel) n =
    let rest = digits fuel (n / 10) in
    if ltb n 10 then (b'0' + n) ∷ [] else rest ++ (b'0' + n % 10) ∷ []

-- A `u32` has 10 digits at most.
abbrev pub decimal : ℕ → List ℕ
decimal n = digits 10 n

-- `ResultCode::connect`
abbrev pub connect_code : ℕ → ResultCode
connect_code rate =
    if rate == 1200
    then connect_1200
    else if rate == 2400
    then connect_2400
    else if ltb 2400 rate
    then connect_at rate
    else connect

unfoldable pub digit : ResultCode → ℕ
digit ok = 0
digit connect = 1
digit (connect_at rate) = 1
digit ring = 2
digit no_carrier = 3
digit error = 4
digit connect_1200 = 5
digit no_dialtone = 6
digit busy = 7
digit connect_2400 = 10

abbrev connect_words : List ℕ
connect_words = b'C' ∷ b'O' ∷ b'N' ∷ b'N' ∷ b'E' ∷ b'C' ∷ b'T' ∷ []

unfoldable pub words : ResultCode → List ℕ
words ok = b'O' ∷ b'K' ∷ []
words connect = connect_words
words connect_1200 = connect_words ++ b' ' ∷ b'1' ∷ b'2' ∷ b'0' ∷ b'0' ∷ []
words connect_2400 = connect_words ++ b' ' ∷ b'2' ∷ b'4' ∷ b'0' ∷ b'0' ∷ []
words (connect_at rate) = connect_words ++ b' ' ∷ decimal rate
words ring = b'R' ∷ b'I' ∷ b'N' ∷ b'G' ∷ []
words no_carrier = b'N' ∷ b'O' ∷ b' ' ∷ b'C' ∷ b'A' ∷ b'R' ∷ b'R' ∷ b'I' ∷ b'E' ∷ b'R' ∷ []
words error = b'E' ∷ b'R' ∷ b'R' ∷ b'O' ∷ b'R' ∷ []
words no_dialtone = b'N' ∷ b'O' ∷ b' ' ∷ b'D' ∷ b'I' ∷ b'A' ∷ b'L' ∷ b'T' ∷ b'O' ∷ b'N' ∷ b'E' ∷ []
words busy = b'B' ∷ b'U' ∷ b'S' ∷ b'Y' ∷ []

-- The code that the result level `X` leaves.
unfoldable pub shown : ℕ → ResultCode → ResultCode
shown level connect_1200 = if level == 0 then connect else connect_1200
shown level connect_2400 = if level == 0 then connect else connect_2400
shown level (connect_at rate) = if level == 0 then connect else connect_at rate
shown level busy = if ltb level 3 then no_carrier else busy
shown level no_dialtone = if not (level == 2 || level == 4) then no_carrier else no_dialtone
shown level code = code

unfoldable pub line : Settings → List ℕ → List ℕ
line s text = let end : List ℕ = terminator s ∷ register s 4 ∷ [] in (end ++ text) ++ end

unfoldable pub report : Settings → ResultCode → List ℕ
unfolding digit words shown line
report s code =
    let code' = shown s.result_set code in
    if s.quiet
    then []
    else if s.verbose
    then line s (words code')
    else decimal (digit code') ++ terminator s ∷ []
