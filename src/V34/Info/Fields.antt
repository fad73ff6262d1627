-- ===== src/V34/Info/Fields.antt =====
-- softmodem-dsp/src/v34/info.rs and the symbol rates of v34/mod.rs: the fields of INFO0, INFO1c and
-- INFO1a. What a writer holds in the end is written out as one list.
use softmodem_rs.Prelude.{
  ℕ, zero, suc, ◌+◌, ◌-◌, min, Bool, false, Option, none, some, List, [], ◌∷◌, ◌++◌, ◌==◌, ltb,
  if◌then◌else◌, get_or, get_elem?,
}
use softmodem_rs.Prelude.Ints.{ℤ, pos, negsuc}
use softmodem_rs.V34.Bits.{field_from}
use softmodem_rs.V34.Reader.{Reader, ◌>>=◌, give, number, flag, times}
use softmodem_rs.V34.Info.{Info}

pub data SymbolRate : Type 0 where
  s2400 : SymbolRate
  s2743 : SymbolRate
  s2800 : SymbolRate
  s3000 : SymbolRate
  s3200 : SymbolRate
  s3429 : SymbolRate

abbrev pub index : SymbolRate → ℕ
index s2400 = 0
index s2743 = 1
index s2800 = 2
index s3000 = 3
index s3200 = 4
index s3429 = 5

-- `SymbolRate::ALL`
abbrev pub symbol_rates : List SymbolRate
symbol_rates = s2400 ∷ s2743 ∷ s2800 ∷ s3000 ∷ s3200 ∷ s3429 ∷ []

abbrev pub from_index : ℕ → Option SymbolRate
from_index index = get_elem? symbol_rates index

pub data TransmitClock : Type 0 where
  internal : TransmitClock
  from_receiver : TransmitClock
  external : TransmitClock

abbrev pub clock_code : TransmitClock → ℕ
clock_code internal = 0
clock_code from_receiver = 1
clock_code external = 2

abbrev pub read_clock : ℕ → Option TransmitClock
read_clock zero = some internal
read_clock (suc zero) = some from_receiver
read_clock (suc (suc zero)) = some external
read_clock (suc (suc (suc code))) = none

pub record Info0 : Type 0 where
  pub supports_2743 : Bool
  pub supports_2800 : Bool
  pub supports_3429 : Bool
  pub low_carrier_3000 : Bool
  pub high_carrier_3000 : Bool
  pub low_carrier_3200 : Bool
  pub high_carrier_3200 : Bool
  pub allows_3429 : Bool
  pub reduces_power : Bool
  pub rate_difference : ℕ
  pub cme : Bool
  pub constellation_1664 : Bool
  pub clock : TransmitClock
  pub acknowledge : Bool

abbrev pub flags : Info0 → List Bool
flags x =
    x.supports_2743 ∷ x.supports_2800 ∷ x.supports_3429 ∷ x.low_carrier_3000 ∷ x.high_carrier_3000
    ∷ x.low_carrier_3200 ∷ x.high_carrier_3200 ∷ x.allows_3429 ∷ x.reduces_power ∷ []

-- `Writer::flag`
abbrev pub flag_bits : Bool → List Bool
flag_bits b = b ∷ []

abbrev pub write_flags : List Bool → List Bool
write_flags [] = []
write_flags (b ∷ bs) = flag_bits b ++ write_flags bs

unfoldable pub info0_fields : Info0 → List Bool
info0_fields x =
    write_flags (flags x)
    ++ (field_from x.rate_difference 0 3
        ++ (flag_bits x.cme
            ++ (flag_bits x.constellation_1664
                ++ (field_from (clock_code x.clock) 0 2 ++ flag_bits x.acknowledge))))

abbrev pub to_info0 : List Bool → ℕ → Bool → Bool → Bool → TransmitClock → Info0
to_info0 flags rate_difference cme constellation acknowledge clock = record {
  supports_2743 = get_or flags 0 false;
  supports_2800 = get_or flags 1 false;
  supports_3429 = get_or flags 2 false;
  low_carrier_3000 = get_or flags 3 false;
  high_carrier_3000 = get_or flags 4 false;
  low_carrier_3200 = get_or flags 5 false;
  high_carrier_3200 = get_or flags 6 false;
  allows_3429 = get_or flags 7 false;
  reduces_power = get_or flags 8 false;
  rate_difference = rate_difference;
  cme = cme;
  constellation_1664 = constellation;
  clock = clock;
  acknowledge = acknowledge;
}

abbrev pub with_clock : (TransmitClock → Info0) → Option TransmitClock → Option Info0
with_clock info none = none
with_clock info (some clock) = some (info clock)

unfoldable pub read_info0 : Reader (Option Info0)
read_info0 = do
  flags ← times 9 flag
  rate_difference ← number 3
  cme ← flag
  constellation ← flag
  code ← number 2
  acknowledge ← flag
  give (with_clock (to_info0 flags rate_difference cme constellation acknowledge) (read_clock code))

unfoldable pub info0 : Info Info0
unfolding info0_fields read_info0
info0 = record {
  field_count = 17;
  fields = info0_fields;
  from_fields = λ bits. (read_info0 bits).0;
}

pub record Probe : Type 0 where
  pub high_carrier : Bool
  pub pre_emphasis : ℕ
  pub max_rate : ℕ

unfoldable pub write_probe : Probe → List Bool
write_probe p =
    flag_bits p.high_carrier ++ (field_from p.pre_emphasis 0 4 ++ field_from p.max_rate 0 4)

abbrev pub to_probe : Bool → ℕ → ℕ → Probe
to_probe high_carrier pre_emphasis max_rate = record {
  high_carrier = high_carrier;
  pre_emphasis = pre_emphasis;
  max_rate = max_rate;
}

unfoldable pub read_probe : Reader Probe
read_probe = do
  high_carrier ← flag
  pre_emphasis ← number 4
  max_rate ← number 4
  give (to_probe high_carrier pre_emphasis max_rate)

abbrev pub no_offset : ℕ
no_offset = 512

-- `offset.clamp(-511, 511).cast_unsigned() & 0x3FF`, or the same of `NO_OFFSET`.
abbrev pub offset_code : Option ℤ → ℕ
offset_code none = no_offset
offset_code (some (pos n)) = min n 511
offset_code (some (negsuc n)) = 1024 - min (n + 1) 511

unfoldable pub write_offset : Option ℤ → List Bool
write_offset offset = field_from (offset_code offset) 0 10

-- The ten bits as a signed number, unless it is -512.
abbrev pub signed_offset : ℕ → Option ℤ
signed_offset raw =
    if raw == no_offset
    then none
    else if ltb raw 512
    then some (pos raw)
    else some (negsuc (1023 - raw))

unfoldable pub read_offset : Reader (Option ℤ)
read_offset = do raw ← number 10; give (signed_offset raw)

-- The reductions of the power, and the length of MD.
abbrev pub Power : Type 0
Power = ℕ × (ℕ × ℕ)

unfoldable pub write_power_and_md : Power → List Bool
write_power_and_md (least, (extra, md_length)) =
    field_from least 0 3 ++ (field_from extra 0 3 ++ field_from md_length 0 7)

unfoldable pub read_power_and_md : Reader Power
read_power_and_md = do
  least ← number 3
  extra ← number 3
  md_length ← number 7
  give (least, (extra, md_length))

pub record Info1c : Type 0 where
  pub power : Power
  pub probes : List Probe
  pub frequency_offset : Option ℤ

abbrev pub write_probes : List Probe → List Bool
write_probes [] = []
write_probes (p ∷ ps) = write_probe p ++ write_probes ps

unfoldable pub info1c_fields : Info1c → List Bool
info1c_fields x =
    write_power_and_md x.power ++ (write_probes x.probes ++ write_offset x.frequency_offset)

abbrev pub to_info1c : Power → List Probe → Option ℤ → Option Info1c
to_info1c power probes offset =
    some (record { power = power; probes = probes; frequency_offset = offset })

unfoldable pub read_info1c : Reader (Option Info1c)
read_info1c = do
  power ← read_power_and_md
  probes ← times 6 read_probe
  offset ← read_offset
  give (to_info1c power probes offset)

unfoldable pub info1c : Info Info1c
unfolding info1c_fields read_info1c
info1c = record {
  field_count = 77;
  fields = info1c_fields;
  from_fields = λ bits. (read_info1c bits).0;
}

pub record Info1a : Type 0 where
  pub power : Power
  pub probe : Probe
  pub answer_to_call : SymbolRate
  pub call_to_answer : SymbolRate
  pub frequency_offset : Option ℤ

unfoldable pub info1a_fields : Info1a → List Bool
info1a_fields x =
    write_power_and_md x.power
    ++ (write_probe x.probe
        ++ (field_from (index x.answer_to_call) 0 3
            ++ (field_from (index x.call_to_answer) 0 3 ++ write_offset x.frequency_offset)))

abbrev pub to_info1a :
    Power → Probe → Option SymbolRate → Option SymbolRate → Option ℤ → Option Info1a
to_info1a power probe none call_to_answer offset = none
to_info1a power probe (some answer_to_call) none offset = none
to_info1a power probe (some answer_to_call) (some call_to_answer) offset = some (record {
  power = power;
  probe = probe;
  answer_to_call = answer_to_call;
  call_to_answer = call_to_answer;
  frequency_offset = offset;
})

unfoldable pub read_info1a : Reader (Option Info1a)
read_info1a = do
  power ← read_power_and_md
  probe ← read_probe
  answer_to_call ← number 3
  call_to_answer ← number 3
  offset ← read_offset
  give (to_info1a power probe (from_index answer_to_call) (from_index call_to_answer) offset)

unfoldable pub info1a : Info Info1a
unfolding info1a_fields read_info1a
info1a = record {
  field_count = 38;
  fields = info1a_fields;
  from_fields = λ bits. (read_info1a bits).0;
}
