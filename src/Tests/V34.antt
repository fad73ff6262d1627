-- ===== src/Tests/V34.antt =====
-- The MP sequences of V.34 at concrete inputs.
use softmodem_rs.Prelude.{◌≡◌, ◌<◌, refl, true, false, [], ◌∷◌, some, arith, take}
use mathlib.Core.Bool
use softmodem_rs.V34.Bits.{crc, field_from}
use softmodem_rs.V34.Mp.{Mp, Deframer, states32, words, sequence, push}
use softmodem_rs.V34.Shell.{new, values, map, unmap, convolve, tabulate, sum, totals}
use softmodem_rs.V34.Shell.RoundTrip.{unmap-map}
use softmodem_rs.V34.Mp.RoundTrip.{push-sequence}
use softmodem_rs.V34.Mp.RoundTrip.Fields.{IsMp}

abbrev terms : Mp
terms = record {
  max_call_to_answer = 14;
  max_answer_to_call = 11;
  auxiliary = false;
  trellis = states32;
  nonlinear = true;
  expanded_shaping = false;
  acknowledge = true;
  rates = 0x1FFF;
  asymmetric = true;
  precoding = some ((1, 65535), ((300, 0), (7, 40000)));
}

terms-IsMp : IsMp terms
terms-IsMp = ground arith

-- A bit of something else, and the sequence but for its last bit.
abbrev before_last : Deframer
unfolding sequence words
before_last = record { window = false ∷ take 186 (sequence (words terms)); ones = 0 }

push-sequence_example :
    ((push before_last false).1 ≡ some terms) × ((push before_last false).0.window ≡ [])
unfolding before_last sequence words crc field_from Bool.xor
push-sequence_example = push-sequence before_last false [] terms terms-IsMp refl

fits_three : 5000 < values (new 3)
unfolding values new convolve tabulate sum totals
fits_three = omega arith

unmap-map_example : unmap (new 3) (map (new 3) 5000) ≡ 5000
unmap-map_example = unmap-map 3 5000 (omega arith) fits_three
