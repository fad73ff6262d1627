-- ===== src/V34/Info/RoundTrip.antt =====
-- The fields of INFO0, INFO1c and INFO1a of info.rs are read as they were written.
use softmodem_rs.Prelude.{
  ◌+◌, ◌*◌, ◌^◌, ◌≤◌, ◌<◌, ◌≡◌, refl, ap, ap₂, sym, subst, ◌∙◌, Bool, Option, none, some, List, [],
  ◌∷◌, ◌++◌, All, length, length-append, arith, append-nil, min,
}
use softmodem_rs.Prelude.Ints.{ℤ, pos, negsuc}
use softmodem_rs.V34.Bits.{field_from}
use softmodem_rs.V34.Reader.{Reader, flag, times}
use softmodem_rs.V34.Reader.RoundTrip.{
  Reads, bind-Reads, map-Reads, number-Reads, flag-Reads, written, times-Reads,
}
use softmodem_rs.V34.Info.Fields.{
  SymbolRate, s2400, s2743, s2800, s3000, s3200, s3429, index, from_index, TransmitClock, internal,
  from_receiver, external, clock_code, read_clock, Info0, flags, flag_bits, write_flags,
  info0_fields, to_info0, with_clock, read_info0, info0, Probe, write_probe, read_probe,
  offset_code, write_offset, signed_offset, read_offset, Power, write_power_and_md,
  read_power_and_md, Info1c, write_probes, info1c_fields, read_info1c, info1c, Info1a,
  info1a_fields, to_info1a, read_info1a, info1a,
}
use softmodem_rs.V34.Info.Framing.{IsReadable}

abbrev Anything : Bool → Type 0
Anything b = Unit

anything : (bs : List Bool) → All Anything bs
anything [] = tt
anything (b ∷ bs) = (tt, anything bs)

write_flags-written : (bs : List Bool) → written flag_bits bs ≡ write_flags bs
write_flags-written [] = refl
write_flags-written (b ∷ bs) = ap (λ l. b ∷ l) (write_flags-written bs)

clock_code-read :
    (c : TransmitClock) → (clock_code c < 2 ^ 2) × (read_clock (clock_code c) ≡ some c)
clock_code-read internal = (omega arith, refl)
clock_code-read from_receiver = (omega arith, refl)
clock_code-read external = (omega arith, refl)

index-read : (r : SymbolRate) → (index r < 2 ^ 3) × (from_index (index r) ≡ some r)
index-read s2400 = (omega arith, refl)
index-read s2743 = (omega arith, refl)
index-read s2800 = (omega arith, refl)
index-read s3000 = (omega arith, refl)
index-read s3200 = (omega arith, refl)
index-read s3429 = (omega arith, refl)

info0-Reads : (x : Info0) → x.rate_difference < 8 → Reads read_info0 (info0_fields x) (some x)
unfolding info0_fields read_info0
info0-Reads x h =
    let (small, same) = clock_code-read x.clock in
    let read : Reads (times 9 flag) (write_flags (flags x)) (flags x) =
      times-Reads flag flag_bits Anything (λ b u. flag-Reads b) (flags x) (anything (flags x)) in
    let built = to_info0 (flags x) x.rate_difference x.cme x.constellation_1664 x.acknowledge in
    let all : Reads read_info0 (info0_fields x)
        (with_clock built (read_clock (clock_code x.clock))) =
      bind-Reads _ read (
        bind-Reads _ (number-Reads x.rate_difference 3 h) (
          bind-Reads _ (flag-Reads x.cme) (
            bind-Reads _ (flag-Reads x.constellation_1664) (
              bind-Reads _ (number-Reads (clock_code x.clock) 2 small)
                (map-Reads _ (flag-Reads x.acknowledge)))))) in
    subst (λ o. Reads read_info0 (info0_fields x) o) (ap (with_clock built) same) all

-- What a reader takes from the bits of a value alone.
Reads-alone :
    (A : Type 0) (m : Reader A) (bits : List Bool) (a : A) → Reads m bits a → (m bits).0 ≡ a
Reads-alone A m bits a h =
    ap (λ l. (m l).0) (sym (append-nil bits)) ∙ ap (λ (r : A × List Bool). r.0) (h.read [])

-- INFO0 has the 17 bits of fields that it says and is read from them as it was written, if its rate
-- difference is below 8.
pub info0-IsReadable : (x : Info0) → x.rate_difference < 8 → IsReadable info0 x
unfolding info0
info0-IsReadable x h = record {
  counted = unfold info0_fields field_from in refl;
  readable = Reads-alone _ read_info0 (info0_fields x) (some x) (info0-Reads x h);
}

probe-Reads :
    (p : Probe) → (p.pre_emphasis < 16) × (p.max_rate < 16) → Reads read_probe (write_probe p) p
unfolding read_probe write_probe
probe-Reads p (h, k) =
    bind-Reads _ (flag-Reads p.high_carrier)
      (bind-Reads _ (number-Reads p.pre_emphasis 4 h) (map-Reads _ (number-Reads p.max_rate 4 k)))

abbrev pub IsOffset : Option ℤ → Type 0
IsOffset none = Unit
IsOffset (some (pos n)) = n ≤ 511
IsOffset (some (negsuc n)) = n ≤ 510

signed_offset-code :
    (o : Option ℤ) → IsOffset o → (offset_code o < 2 ^ 10) × (signed_offset (offset_code o) ≡ o)
signed_offset-code none h = (omega arith, refl)
signed_offset-code (some (pos n)) h = ground arith
signed_offset-code (some (negsuc n)) h =
    let fits : min (n + 1) 511 ≡ n + 1 = omega arith in rw fits (ground arith)

offset-Reads : (o : Option ℤ) → IsOffset o → Reads read_offset (write_offset o) o
unfolding read_offset write_offset
offset-Reads o h =
    let (small, same) = signed_offset-code o h in
    subst (λ x. Reads read_offset (write_offset o) x) same
      (map-Reads signed_offset (number-Reads (offset_code o) 10 small))

abbrev pub IsPower : Power → Type 0
IsPower (least, (extra, md_length)) = (least < 8) × (extra < 8) × (md_length < 128)

power-Reads : (p : Power) → IsPower p → Reads read_power_and_md (write_power_and_md p) p
unfolding read_power_and_md write_power_and_md
power-Reads (least, (extra, md_length)) (h, k, l) =
    bind-Reads _ (number-Reads least 3 h)
      (bind-Reads _ (number-Reads extra 3 k) (map-Reads _ (number-Reads md_length 7 l)))

length-write_probe : (p : Probe) → length (write_probe p) ≡ 9
unfolding write_probe field_from
length-write_probe p = refl

length-write_offset : (o : Option ℤ) → length (write_offset o) ≡ 10
unfolding write_offset field_from
length-write_offset o = refl

length-write_power_and_md : (p : Power) → length (write_power_and_md p) ≡ 13
unfolding write_power_and_md field_from
length-write_power_and_md p = refl

write_probes-written : (ps : List Probe) → written write_probe ps ≡ write_probes ps
write_probes-written [] = refl
write_probes-written (p ∷ ps) = ap (λ l. write_probe p ++ l) (write_probes-written ps)

length-write_probes : (ps : List Probe) → length (write_probes ps) ≡ 9 * length ps
length-write_probes [] = refl
length-write_probes (p ∷ ps) = omega (
  arith,
  length-append {0} (write_probe p) (write_probes ps),
  length-write_probe p,
  length-write_probes ps,
)

abbrev pub IsProbe : Probe → Type 0
IsProbe p = (p.pre_emphasis < 16) × (p.max_rate < 16)

-- Six probes, one for each symbol rate.
abbrev pub IsInfo1c : Info1c → Type 0
IsInfo1c x =
    IsPower x.power × (length x.probes ≡ 6) × All IsProbe x.probes × IsOffset x.frequency_offset

info1c-Reads : (x : Info1c) → IsInfo1c x → Reads read_info1c (info1c_fields x) (some x)
unfolding info1c_fields read_info1c
info1c-Reads x (power, six, probes, offset) =
    let all : Reads (times (length x.probes) read_probe) (written write_probe x.probes) x.probes =
      times-Reads read_probe write_probe IsProbe probe-Reads x.probes probes in
    let read : Reads (times 6 read_probe) (write_probes x.probes) x.probes =
      subst (λ bits. Reads (times 6 read_probe) bits x.probes) (write_probes-written x.probes)
        (subst (λ n. Reads (times n read_probe) (written write_probe x.probes) x.probes) six all) in
    bind-Reads _ (power-Reads x.power power)
      (bind-Reads _ read (map-Reads _ (offset-Reads x.frequency_offset offset)))

length-info1c_fields : (x : Info1c) → length x.probes ≡ 6 → length (info1c_fields x) ≡ 77
unfolding info1c_fields
length-info1c_fields x six =
    let probes = write_probes x.probes in
    let offset = write_offset x.frequency_offset in
    omega (
      arith,
      length-append {0} (write_power_and_md x.power) (probes ++ offset),
      length-append {0} probes offset,
      length-write_power_and_md x.power,
      length-write_probes x.probes,
      length-write_offset x.frequency_offset,
      six,
    )

-- INFO1c has the 77 bits of fields that it says and is read from them as it was written, if it has six
-- probes, its numbers fit their widths and its frequency offset, if any, is from -511 to 511.
pub info1c-IsReadable : (x : Info1c) → IsInfo1c x → IsReadable info1c x
unfolding info1c
info1c-IsReadable x (power, six, probes, offset) = record {
  counted = length-info1c_fields x six;
  readable =
      Reads-alone _ read_info1c (info1c_fields x) (some x)
        (info1c-Reads x (power, six, probes, offset));
}

abbrev pub IsInfo1a : Info1a → Type 0
IsInfo1a x = IsPower x.power × IsProbe x.probe × IsOffset x.frequency_offset

info1a-Reads : (x : Info1a) → IsInfo1a x → Reads read_info1a (info1a_fields x) (some x)
unfolding info1a_fields read_info1a
info1a-Reads x (power, probe, offset) =
    let (down, down_same) = index-read x.answer_to_call in
    let (up, up_same) = index-read x.call_to_answer in
    let built : Option SymbolRate → Option SymbolRate → Option Info1a =
      λ a c. to_info1a x.power x.probe a c x.frequency_offset in
    let all : Reads read_info1a (info1a_fields x)
        (built (from_index (index x.answer_to_call)) (from_index (index x.call_to_answer))) =
      bind-Reads _ (power-Reads x.power power) (
        bind-Reads _ (probe-Reads x.probe probe) (
          bind-Reads _ (number-Reads (index x.answer_to_call) 3 down) (
            bind-Reads _ (number-Reads (index x.call_to_answer) 3 up)
              (map-Reads _ (offset-Reads x.frequency_offset offset))))) in
    subst (λ o. Reads read_info1a (info1a_fields x) o) (ap₂ built down_same up_same) all

-- INFO1a has the 38 bits of fields that it says and is read from them as it was written, if its numbers
-- fit their widths and its frequency offset, if any, is from -511 to 511.
pub info1a-IsReadable : (x : Info1a) → IsInfo1a x → IsReadable info1a x
unfolding info1a
info1a-IsReadable x h = record {
  counted = unfold info1a_fields write_power_and_md write_probe write_offset field_from in refl;
  readable = Reads-alone _ read_info1a (info1a_fields x) (some x) (info1a-Reads x h);
}

-- INFO0 has the 17 bits of fields that it says and is read from them as it was written, if its rate
-- difference is below 8; and so have and are INFO1c, with 77 bits, if it has six probes, and INFO1a, with 38,
-- if their numbers fit their widths and their frequency offsets, if any, are from -511 to 511.
pub infos-AreReadable :
    (x : Info0) (y : Info1c) (z : Info1a)
    → x.rate_difference < 8
    → IsInfo1c y
    → IsInfo1a z
    → IsReadable info0 x × IsReadable info1c y × IsReadable info1a z
infos-AreReadable x y z h k l = (info0-IsReadable x h, info1c-IsReadable y k, info1a-IsReadable z l)
