-- ===== src/Tests/Link.antt =====
-- lib.rs of the link at concrete inputs.
use softmodem_rs.Prelude.{ℕ, ◌≡◌, refl, true, false, List, [], ◌∷◌, ◌++◌, none, arith}
use softmodem_rs.Lapm.State.{Role}
use softmodem_rs.Uart.RoundTrip.{at}
use softmodem_rs.Uart.{idle}
use softmodem_rs.Uart
use softmodem_rs.Link.State.{Setup, Phase, Link, setup_normal, new}
use softmodem_rs.Link.Send.{send, transmit}
use softmodem_rs.Link.Receive.{receive}
use softmodem_rs.Link.Normal.{receive-transmit}
use softmodem_rs.Link.Phases.Starting.{Goes}
use softmodem_rs.Link.Phases.{
  Operation, starts, sends, transmits, receives, apply_all, apply_all-Goes,
}

abbrev reliable_setup : Setup
reliable_setup = record { lapm = true; detection = true; required = false; compression = none }

abbrev caller : Link
unfolding new
caller = new Role.originate reliable_setup (at 0 false false idle)

-- A start at 2400 bit/s, some detection patterns, noise, and a time-out.
abbrev session : List Operation
session =
    starts (λ rate. 1000) 2400 0
    ∷ transmits 20 100
    ∷ receives (true ∷ false ∷ true ∷ []) 200
    ∷ receives [] 750_000_000
    ∷ sends (65 ∷ [])
    ∷ []

apply_all-Goes_example : Goes caller (apply_all caller session)
apply_all-Goes_example = apply_all-Goes caller session

abbrev left : Link
unfolding new
left = record (new Role.originate setup_normal (at 0 false false idle)) { phase = Phase.normal }

abbrev right : Link
unfolding new
right = record (new Role.answer setup_normal (at 3 false false idle)) {
  phase = Phase.normal;
  received = 7 ∷ [];
}

abbrev text : List ℕ
text = 72 ∷ 105 ∷ []

receive-transmit_example :
    ((transmit (send left text) 40 9).0 ≡ left)
    × (receive right (transmit (send left text) 40 9).1 12
        ≡ record right { received = right.received ++ text })
unfolding left Uart.frame
receive-transmit_example =
    receive-transmit left right text 3 false 40 9 12 refl refl refl refl (ground arith)
      (omega arith)
