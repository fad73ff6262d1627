-- ===== src/Uart.antt =====
-- softmodem-dsp/src/uart.rs: 8N1 start-stop framing, with V.14 stop bit deletion.
pub mod RoundTrip
use softmodem_rs.Prelude.{
  ℕ, ◌+◌, ◌*◌, ◌/◌, ◌%◌, ◌^◌, Bool, true, false, not, ◌&&◌, Option, none, some, List, [], ◌∷◌, ◌++◌,
  bit_or, ◌==◌, if◌then◌else◌,
}

abbrev bit_at : ℕ → ℕ → Bool
bit_at x i = (x / 2 ^ i) % 2 == 1

-- `(0..8).map(move |i| byte >> i & 1 == 1)`
abbrev pub octet_bits : ℕ → List Bool
octet_bits b =
    bit_at b 0
    ∷ bit_at b 1
    ∷ bit_at b 2
    ∷ bit_at b 3
    ∷ bit_at b 4
    ∷ bit_at b 5
    ∷ bit_at b 6
    ∷ bit_at b 7
    ∷ []

unfoldable pub frame : ℕ → List Bool
frame byte = false ∷ (octet_bits byte ++ true ∷ [])

-- `receiving byte count` is `State::Data { byte, count }`.
pub data State : Type 0 where
  idle : State
  receiving : ℕ → ℕ → State
  stop : ℕ → State
  hunt : State

pub record Decoder : Type 0 where
  pub state : State
  pub framing_errors : ℕ
  pub v14 : Bool
  pub deleted_stop : Bool

unfoldable pub new : Decoder
new = record { state = idle; framing_errors = 0; v14 = false; deleted_stop = false }

unfoldable pub new_v14 : Decoder
new_v14 = record { state = idle; framing_errors = 0; v14 = true; deleted_stop = false }

abbrev pub from_bool : Bool → ℕ
from_bool true = 1
from_bool false = 0

-- The match of `push` on the state and the bit.
unfoldable pub step : Decoder → State → Bool → Decoder × Option ℕ
step d idle false = (record d { state = receiving 0 0 }, none)
step d idle true = (record d { state = idle }, none)
step d hunt true = (record d { state = idle }, none)
step d hunt false = (record d { state = hunt }, none)
step d (receiving byte count) bit =
    let byte' = bit_or byte (from_bool bit * 2 ^ count) in
    if count == 7
    then (record d { state = stop byte' }, none)
    else (record d { state = receiving byte' (count + 1) }, none)
step d (stop byte) true = (record d { state = idle; deleted_stop = false }, some byte)
step d (stop byte) false =
    if d.v14 && not d.deleted_stop
    then (record d { state = receiving 0 0; deleted_stop = true }, some byte)
    else (
      record d { state = hunt; deleted_stop = false; framing_errors = d.framing_errors + 1 },
      none,
    )

unfoldable pub push : Decoder → Bool → Decoder × Option ℕ
unfolding step
push d bit = step d d.state bit

unfoldable pub reset : Decoder → Decoder
reset d = record d { state = idle; deleted_stop = false }

abbrev pub gather : Option ℕ → Decoder × List ℕ → Decoder × List ℕ
gather none r = r
gather (some byte) (d, bytes) = (d, byte ∷ bytes)

-- A bit stream pushed bit by bit: the decoder after it, and the characters that came, in order.
unfoldable pub push_all : Decoder → List Bool → Decoder × List ℕ
push_all d [] = (d, [])
push_all d (bit ∷ bits) = let (d', byte) = push d bit in gather byte (push_all d' bits)
