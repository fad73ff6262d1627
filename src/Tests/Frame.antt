-- ===== src/Tests/Frame.antt =====
-- frame.rs at concrete inputs.
use softmodem_rs.Prelude.{◌≡◌, [], ◌∷◌, true, false, arith, refl}
use softmodem_rs.Prelude.Result.{ok}
use softmodem_rs.Frame.{Frame, i_format, s_format, rr, bytes, numbered, parse}
use softmodem_rs.Frame.RoundTrip.{IsFrame, parse-bytes, bytes-parse}

abbrev hello : Frame
hello = record { cr = true; control = i_format 127 1 false; info = b'h' ∷ b'i' ∷ [] }

parse-bytes_example : parse (bytes hello) ≡ ok hello
parse-bytes_example = parse-bytes hello (omega arith)

abbrev receive_ready : Frame
receive_ready = record { cr = false; control = s_format rr 5 true; info = [] }

bytes-parse_example : (bytes receive_ready ≡ 0x01 ∷ 0x01 ∷ 0x0b ∷ []) × IsFrame receive_ready
unfolding parse numbered
bytes-parse_example = bytes-parse (0x01 ∷ 0x01 ∷ 0x0b ∷ []) receive_ready (omega arith) refl
