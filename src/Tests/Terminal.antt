-- ===== src/Tests/Terminal.antt =====
-- escape.rs, with `+` as the escape character and a guard time of 50, and line.rs at concrete inputs.
use softmodem_rs.Prelude.{true, ◌≡◌, refl, List, [], ◌∷◌, ◌++◌, inl, arith}
use softmodem_rs.Terminal.Escape.{EscapeDetector}
use softmodem_rs.Terminal.Line.{line, Keys, echoed}
use softmodem_rs.Terminal.Line.Typing.{type_all, type_all-line}
use softmodem_rs.Terminal.Escape.Stream.{
  Event, typed, waited, escape, IsHeld, run, expand, input, expand-run, run-escape,
}

abbrev quiet : EscapeDetector
quiet = record { last_data = 0; held = []; last_held = 0 }

-- A letter, two escape characters that are no escape, and a third one, held.
abbrev session : List Event
session = typed 97 10 ∷ typed 43 100 ∷ typed 43 120 ∷ waited 300 ∷ typed 43 400 ∷ []

expand-run_example :
    (expand 43 (run 43 50 quiet session).1 ++ (run 43 50 quiet session).0.held
      ≡ quiet.held ++ input session)
    × IsHeld 43 (run 43 50 quiet session).0.held
expand-run_example = expand-run 43 50 session quiet (inl refl)

run-escape_example :
    (run 43 50 quiet (typed 43 100 ∷ typed 43 120 ∷ typed 43 140 ∷ waited 190 ∷ [])).1 ≡ escape ∷ []
run-escape_example =
    run-escape 43 50 100 120 140 190 quiet refl (omega arith) (omega arith) (omega arith)
      (omega arith)

abbrev holding : EscapeDetector
holding = record { last_data = 0; held = 43 ∷ 43 ∷ []; last_held = 120 }

-- Carriage return, backspace, echo.
abbrev keys : Keys
keys = record { terminator = 13; backspace = 8; echo = true }

-- `at`, then `dt3` and a carriage return.
type_all-line_example :
    type_all keys
      (record { buffer = []; last = 90 ∷ [] })
      (97 ∷ 116 ∷ ((100 ∷ 116 ∷ 51 ∷ []) ++ 13 ∷ []))
      []
    ≡ (
      (record { buffer = []; last = 100 ∷ 116 ∷ 51 ∷ [] }, line (100 ∷ 116 ∷ 51 ∷ []) ∷ []),
      echoed keys (97 ∷ 116 ∷ ((100 ∷ 116 ∷ 51 ∷ []) ++ 13 ∷ [])) [],
    )
type_all-line_example =
    type_all-line keys 97 116 refl refl (100 ∷ 116 ∷ 51 ∷ []) (90 ∷ []) [] refl refl
      (refl, (refl, (refl, tt))) (omega arith)
