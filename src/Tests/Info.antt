-- ===== src/Tests/Info.antt =====
-- The INFO sequences of V.34 at concrete inputs.
use softmodem_rs.Prelude.{◌≡◌, refl, true, false, [], ◌∷◌, none, some, arith, take}
use softmodem_rs.Prelude.Ints.{negsuc}
use softmodem_rs.V34.Bits.{crc, field_from}
use softmodem_rs.V34.Info.{Deframer, push}
use softmodem_rs.V34.Info.Framing.{IsReadable, body, push-body}
use softmodem_rs.V34.Info.Fields.{
  Info0, from_receiver, info0, info0_fields, Probe, Info1c, info1c, Info1a, info1a, s3200, s3429,
}
use softmodem_rs.V34.Info.RoundTrip.{IsInfo1c, IsInfo1a, info0-IsReadable, infos-AreReadable}
use mathlib.Core.Bool

abbrev capabilities : Info0
capabilities = record {
  supports_2743 = true;
  supports_2800 = true;
  supports_3429 = false;
  low_carrier_3000 = true;
  high_carrier_3000 = true;
  low_carrier_3200 = false;
  high_carrier_3200 = true;
  allows_3429 = false;
  reduces_power = true;
  rate_difference = 5;
  cme = false;
  constellation_1664 = true;
  clock = from_receiver;
  acknowledge = true;
}

-- A bit of something else, and the sequence but for its last bit.
abbrev before_last : Deframer
unfolding info0 info0_fields
before_last = record { window = true ∷ take 40 (body info0 capabilities) }

push-body_example : push info0 before_last true ≡ (record { window = [] }, some capabilities)
unfolding before_last info0 info0_fields crc field_from Bool.xor
push-body_example =
    push-body info0 capabilities (info0-IsReadable capabilities (omega arith)) before_last true refl

abbrev probe : Probe
probe = record { high_carrier = true; pre_emphasis = 10; max_rate = 14 }

abbrev probing : Info1c
probing = record {
  power = (3, (7, 100));
  probes = probe ∷ probe ∷ probe ∷ probe ∷ probe ∷ probe ∷ [];
  frequency_offset = some (negsuc 299);
}

probing-IsInfo1c : IsInfo1c probing
probing-IsInfo1c = ground arith

abbrev answer : Info1a
answer = record {
  power = (0, (1, 2));
  probe = probe;
  answer_to_call = s3200;
  call_to_answer = s3429;
  frequency_offset = none;
}

answer-IsInfo1a : IsInfo1a answer
answer-IsInfo1a = ground arith

infos-AreReadable_example :
    IsReadable info0 capabilities × IsReadable info1c probing × IsReadable info1a answer
infos-AreReadable_example =
    infos-AreReadable capabilities probing answer (omega arith) probing-IsInfo1c answer-IsInfo1a
