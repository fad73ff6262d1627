-- ===== src/Hdlc.antt =====
-- softmodem-dsp/src/hdlc.rs: flags, zero-bit insertion, aborts and the 16-bit FCS.
-- A `u8` or `u16` is a number, `x >> i & 1 == 1` is `bit_at x i`, a `VecDeque<bool>` that is
-- pushed to at its back is a list that grows at its end.
pub mod Fcs
pub mod Stuffing
pub mod RoundTrip
use softmodem_rs.Prelude.{
  ℕ, zero, suc, ◌+◌, ◌-◌, ◌*◌, ◌/◌, ◌%◌, ◌^◌, ◌<◌, min, bit_xor, Bool, true, false, not, ◌&&◌, ◌||◌,
  Option, none, some, List, [], ◌∷◌, ◌++◌, ltb, ◌==◌, if◌then◌else◌, length, take,
}
use mathlib.Core.List.{foldl, foldr}

abbrev pub flag_octet : ℕ
flag_octet = 0x7e

abbrev pub fcs_init : ℕ
fcs_init = 0xffff

abbrev pub fcs_poly : ℕ
fcs_poly = 0x8408

abbrev pub fcs_good : ℕ
fcs_good = 0xf0b8

abbrev pub fcs_len : ℕ
fcs_len = 2

abbrev pub max_bits : ℕ
max_bits = 8 * 4200

-- `byte >> i & 1 == 1`
abbrev pub bit_at : ℕ → ℕ → Bool
bit_at x i = (x / 2 ^ i) % 2 == 1

-- The eight bits of an octet, `(0..8).map(|i| byte >> i & 1 == 1)`.
abbrev pub octet_bits : ℕ → List Bool
octet_bits b =
    bit_at b 0
    ∷ bit_at b 1
    ∷ bit_at b 2
    ∷ bit_at b 3
    ∷ bit_at b 4
    ∷ bit_at b 5
    ∷ bit_at b 6
    ∷ bit_at b 7
    ∷ []

-- One round of the loop `for _ in 0..8` of `fcs_update`.
unfoldable pub fcs_shift : ℕ → ℕ
fcs_shift fcs = if fcs % 2 == 1 then bit_xor (fcs / 2) fcs_poly else fcs / 2

abbrev pub rounds : ℕ → ℕ → ℕ
rounds zero fcs = fcs
rounds (suc n) fcs = rounds n (fcs_shift fcs)

unfoldable pub fcs_update : ℕ → List ℕ → ℕ
fcs_update fcs [] = fcs
fcs_update fcs (byte ∷ bytes) = fcs_update (rounds 8 (bit_xor fcs byte)) bytes

-- `(!fcs).to_le_bytes()`
unfoldable pub fcs16 : List ℕ → List ℕ
fcs16 bytes = let fcs = 0xffff - fcs_update fcs_init bytes in (fcs % 256) ∷ (fcs / 256) ∷ []

pub push_flag : List Bool → List Bool
push_flag out = out ++ octet_bits flag_octet

-- The queue and the local `ones` of `push_frame`.
pub record Stuffer : Type 0 where
  pub out : List Bool
  pub ones : ℕ

-- One round of the inner loop of `push_frame`.
pub push_bit : Stuffer → Bool → Stuffer
push_bit s bit =
    let ones = if bit then s.ones + 1 else 0 in
    if ones == 5
    then record { out = (s.out ++ bit ∷ []) ++ false ∷ []; ones = 0 }
    else record { out = s.out ++ bit ∷ []; ones = ones }

pub push_octets : Stuffer → List ℕ → Stuffer
push_octets s [] = s
push_octets s (byte ∷ bytes) = push_octets (foldl push_bit s (octet_bits byte)) bytes

pub push_frame : List ℕ → List Bool → List Bool
push_frame frame out =
    push_flag (push_octets (record { out = out; ones = 0 }) (frame ++ fcs16 frame)).out

pub record Deframer : Type 0 where
  pub min_content : ℕ
  pub bits : List Bool
  pub ones : ℕ
  pub is_open : Bool
  pub flags_in_a_row : ℕ
  pub bad_frames : ℕ

pub new : ℕ → Deframer
new min_content = record {
  min_content = min_content;
  bits = [];
  ones = 0;
  is_open = false;
  flags_in_a_row = 0;
  bad_frames = 0;
}

-- `c.iter().rev().fold(0, |b, &bit| b << 1 | u8::from(bit))`
pub octet_of : List Bool → ℕ
octet_of c = foldr (λ bit b. (b * 2) % 256 + (if bit then 1 else 0)) 0 c

-- `bits.chunks(8).map(…)`
pub octets_of : List Bool → List ℕ
octets_of (a ∷ b ∷ c ∷ d ∷ e ∷ f ∷ g ∷ h ∷ rest) =
    octet_of (a ∷ b ∷ c ∷ d ∷ e ∷ f ∷ g ∷ h ∷ []) ∷ octets_of rest
octets_of [] = []
octets_of short = octet_of short ∷ []

pub checked : List Bool → ℕ → Option (List ℕ)
checked bits min_content =
    let bytes = octets_of bits in
    if not (length bits % 8 == 0) || ltb (length bits / 8) (min_content + fcs_len)
    then none
    else if not (fcs_update fcs_init bytes == fcs_good)
    then none
    else some (take (length bytes - fcs_len) bytes)

pub abort : Deframer → Deframer
abort d = record d { is_open = false; bits = []; flags_in_a_row = 0 }

pub count_bad : Deframer → Option (List ℕ) → Deframer × Option (List ℕ)
count_bad d none = (record d { bad_frames = d.bad_frames + 1 }, none)
count_bad d (some frame) = (d, some frame)

pub flag : Deframer → Deframer × Option (List ℕ)
unfolding count_bad
flag d =
    let content = length d.bits - 7 in
    let bits = take content d.bits in
    let d' = record d { is_open = true; bits = [] } in
    if not d.is_open || content == 0
    then (record d' { flags_in_a_row = d.flags_in_a_row + 1 }, none)
    else count_bad (record d' { flags_in_a_row = 0 }) (checked bits d.min_content)

pub push_one : Deframer → Deframer
unfolding abort
push_one d =
    let d' = record d { ones = min (d.ones + 1) 255 } in
    if d'.ones == 7
    then abort d'
    else if d.is_open && ltb d'.ones 7
    then record d' { bits = d.bits ++ true ∷ [] }
    else d'

-- The catch-all arm of the match on the ones before a 0.
pub push_zero : Deframer → Deframer
unfolding abort
push_zero d =
    let d' = record d { bits = d.bits ++ false ∷ [] } in
    if d.is_open then if ltb max_bits (length d'.bits) then abort d' else d' else d

pub push : Deframer → Bool → Deframer × Option (List ℕ)
unfolding push_one push_zero flag
push d true = (push_one d, none)
push d false =
    let d' = record d { ones = 0 } in
    if d.ones == 5 then (d', none) else if d.ones == 6 then flag d' else (push_zero d', none)

abbrev pub gather : Option (List ℕ) → Deframer × List (List ℕ) → Deframer × List (List ℕ)
gather none r = r
gather (some frame) (d, frames) = (d, frame ∷ frames)

-- A bit stream pushed bit by bit: the deframer after it, and the frames that came, in order.
pub push_all : Deframer → List Bool → Deframer × List (List ℕ)
push_all d [] = (d, [])
push_all d (bit ∷ bits) = let (d', frame) = push d bit in gather frame (push_all d' bits)
