-- ===== src/Tests/Line.antt =====
-- The start-stop characters, the detection patterns and the scramblers on concrete streams.
use softmodem_rs.Prelude.{ℕ, ◌≡◌, refl, Bool, true, false, some, List, [], ◌∷◌, arith, drop}
use softmodem_rs.Uart.{idle}
use softmodem_rs.Uart
use softmodem_rs.Uart.RoundTrip.{at, line, characters, push_all-line, allowed}
use softmodem_rs.Detect.{Adp, Heard, odp, adp, push_odp, push_adp}
use softmodem_rs.Detect.Patterns.{heard, heard-two_patterns}
use softmodem_rs.Scrambler.{v22, Scrambler, descrambler, scramble_all, descramble_all}
use softmodem_rs.Scrambler.Synchronisation.{turned, descramble_all-turned}

abbrev two_characters : List (ℕ × Bool)
two_characters = (72, true) ∷ (105, false) ∷ []

push_all-line_example :
    Uart.push_all (at 0 true false idle) (line two_characters)
    ≡ (at 0 true false idle, characters two_characters)
push_all-line_example =
    push_all-line 0 true two_characters (unfold allowed in refl) (omega arith, (omega arith, tt))

abbrev heard_text : Heard
heard_text = record { last = 69 ∷ 67 ∷ 104 ∷ [] }

heard-two_patterns_example :
    (odp (heard heard_text (at 3 true false idle) (push_odp (push_odp []))) ≡ true)
    × ((a : Adp)
        → adp (heard heard_text (at 3 true false idle) (push_adp (push_adp [] a) a)) ≡ some a)
heard-two_patterns_example = heard-two_patterns 3 true heard_text (omega arith)

abbrev busy : Scrambler
busy = record { polynomial = v22; history = 4660; ones = 64; guard = true }

abbrev mixed : List Bool
mixed =
    true ∷ false ∷ true ∷ true ∷ false ∷ true ∷ false ∷ true ∷ true ∷ false ∷ true ∷ false ∷ true
    ∷ true ∷ false ∷ true ∷ false ∷ true ∷ true ∷ false ∷ []

descramble_all-turned_example :
    drop 17 (descramble_all (descrambler v22) (scramble_all busy mixed))
    ≡ drop 17 (turned true 64 mixed (scramble_all busy mixed))
unfolding descrambler
descramble_all-turned_example =
    descramble_all-turned v22 busy (descrambler v22) mixed refl refl (omega arith, omega arith)
      (omega arith, omega arith)
