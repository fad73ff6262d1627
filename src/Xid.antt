-- ===== src/Xid.antt =====
-- softmodem-link/src/xid.rs: the information field of an XID frame.
-- A `u8`, `u16` or `u32` is a number, and a slice of octets a list of numbers.
pub mod Groups
pub mod Values
pub mod RoundTrip
pub mod ParameterGroup
pub mod PrivateGroup
use softmodem_rs.Prelude.{
  ℕ, zero, suc, ◌+◌, ◌-◌, ◌*◌, ◌/◌, ◌%◌, ◌^◌, min, Bool, true, false, Option, none, some, List, [],
  ◌∷◌, ◌++◌, bit_and, bit_or, ltb, leb, ◌==◌, if◌then◌else◌, length, take, drop,
}
use softmodem_rs.Prelude.Maybe.{◌>>=◌}
use mathlib.Core.List.{foldl}
use mathlib.Core.Option

abbrev pub format : ℕ
format = 0x82

abbrev pub parameters_group : ℕ
parameters_group = 0x80

abbrev pub private_group : ℕ
private_group = 0xf0

abbrev pub user_data : ℕ
user_data = 0xff

abbrev pub parameter_set : ℕ
parameter_set = 0

abbrev pub p0 : ℕ
p0 = 1

abbrev pub p1 : ℕ
p1 = 2

abbrev pub p2 : ℕ
p2 = 3

-- The octets of "V42".
abbrev v42 : List ℕ
v42 = b'V' ∷ b'4' ∷ b'2' ∷ []

abbrev pub optional_functions : ℕ
optional_functions = 3

abbrev pub n401_tx_id : ℕ
n401_tx_id = 5

abbrev pub n401_rx_id : ℕ
n401_rx_id = 6

abbrev pub k_tx_id : ℕ
k_tx_id = 7

abbrev pub k_rx_id : ℕ
k_rx_id = 8

-- `1 << 1 | 1 << 3 | 1 << 7 | 1 << 8 | 1 << 11 | 1 << 15`
abbrev pub required_functions : ℕ
required_functions = 2 ^ 1 + 2 ^ 3 + 2 ^ 7 + 2 ^ 8 + 2 ^ 11 + 2 ^ 15

-- `!REQUIRED_FUNCTIONS`
abbrev pub other_functions : ℕ
other_functions = 0xffff_ffff - required_functions

pub record Compression : Type 0 where
  pub directions : ℕ
  pub codewords : Option ℕ
  pub max_string : Option ℕ

pub record Xid : Type 0 where
  pub functions : ℕ
  pub n401_tx : Option ℕ
  pub n401_rx : Option ℕ
  pub k_tx : Option ℕ
  pub k_rx : Option ℕ
  pub compression : Option Compression

abbrev pub default : Xid
default = record {
  functions = 0;
  n401_tx = none;
  n401_rx = none;
  k_tx = none;
  k_rx = none;
  compression = none;
}

abbrev pub le32 : ℕ → List ℕ
le32 n = (n % 256) ∷ (n / 256 % 256) ∷ (n / 65536 % 256) ∷ (n / 16777216 % 256) ∷ []

abbrev pub be32 : ℕ → List ℕ
be32 n = (n / 16777216 % 256) ∷ (n / 65536 % 256) ∷ (n / 256 % 256) ∷ (n % 256) ∷ []

abbrev pub be16 : ℕ → List ℕ
be16 n = (n / 256 % 256) ∷ (n % 256) ∷ []

-- `bytes.iter().take_while(|&&b| b == 0).count()`
pub leading_zeros : List ℕ → ℕ
leading_zeros [] = 0
leading_zeros (b ∷ bytes) = if b == 0 then suc (leading_zeros bytes) else 0

pub minimal : List ℕ → List ℕ
unfolding leading_zeros
minimal bytes = drop (min (leading_zeros bytes) (length bytes - 1)) bytes

-- Every caller passes a value of at most four octets, so `u8::try_from(value.len())` succeeds.
pub push_parameter : List ℕ → ℕ → List ℕ → List ℕ
push_parameter group id value = group ++ (id ∷ length value ∷ value)

pub push_group : List ℕ → ℕ → List ℕ → List ℕ
push_group bytes id group = bytes ++ (id ∷ (be16 (min (length group) 65535) ++ group))

-- `if let Some(value) = o { push_parameter(&mut group, id, encoded(value)) }`
pub push_some : (ℕ → List ℕ) → List ℕ → ℕ → Option ℕ → List ℕ
unfolding push_parameter
push_some encoded group id none = group
push_some encoded group id (some value) = push_parameter group id (encoded value)

abbrev pub octets_value : ℕ → List ℕ
octets_value octets = minimal (be32 (octets * 8))

abbrev pub octet_value : ℕ → List ℕ
octet_value k = k ∷ []

pub parameters_bytes : Xid → List ℕ
unfolding push_parameter push_some
parameters_bytes xid =
    let functions = bit_or xid.functions required_functions in
    let g0 = push_parameter [] optional_functions (le32 functions) in
    let g1 = push_some octets_value g0 n401_tx_id xid.n401_tx in
    let g2 = push_some octets_value g1 n401_rx_id xid.n401_rx in
    let g3 = push_some octet_value g2 k_tx_id xid.k_tx in push_some octet_value g3 k_rx_id xid.k_rx

pub private_bytes : Compression → List ℕ
unfolding push_parameter push_some
private_bytes c =
    let g0 = push_parameter [] parameter_set v42 in
    let g1 = push_parameter g0 p0 (c.directions ∷ []) in
    let g2 = push_some be16 g1 p1 c.codewords in push_some octet_value g2 p2 c.max_string

abbrev push_compression : List ℕ → Option Compression → List ℕ
push_compression bytes none = bytes
push_compression bytes (some c) = push_group bytes private_group (private_bytes c)

unfoldable pub bytes : Xid → List ℕ
unfolding parameters_bytes private_bytes push_group minimal
bytes xid =
    push_compression (push_group (format ∷ []) parameters_group (parameters_bytes xid))
      xid.compression

-- `slice.get(..n)`
pub prefix? : ℕ → List ℕ → Option (List ℕ)
prefix? n xs = if leb n (length xs) then some (take n xs) else none

-- The loop of `parameters`, on fuel: each round takes two octets at least.
pub parameters_loop : ℕ → List ℕ → Option (List (ℕ × List ℕ))
unfolding prefix?
parameters_loop fuel [] = some []
parameters_loop fuel (id ∷ []) = some []
parameters_loop zero (id ∷ len ∷ tail) = none
parameters_loop (suc fuel) (id ∷ len ∷ tail) = do
  value ← prefix? len tail
  found ← parameters_loop fuel (drop len tail)
  some ((id, value) ∷ found)

pub parameters : List ℕ → Option (List (ℕ × List ℕ))
unfolding parameters_loop
parameters group = parameters_loop (length group) group

-- `n.checked_mul(256).map(|n| n | u32::from(b))`, folded.
pub number_from : ℕ → List ℕ → Option ℕ
number_from n [] = some n
number_from n (b ∷ value) =
    let rest = number_from (n * 256 + b) value in if ltb (n * 256) (2 ^ 32) then rest else none

pub number : List ℕ → Option ℕ
unfolding number_from
number value = number_from 0 value

pub octets : ℕ → ℕ
octets bits = min (bits / 8) 65535

pub window : ℕ → ℕ
window k = min k 255

-- `from_le_bytes` of the first four octets, with zeros after a shorter value.
pub le_number : ℕ → List ℕ → ℕ
le_number zero value = 0
le_number (suc n) [] = 0
le_number (suc n) (b ∷ value) = b + 256 * le_number n value

pub read_parameter : Xid → ℕ × List ℕ → Xid
unfolding octets window le_number number
read_parameter xid (id, value) =
    if id == optional_functions
    then record xid { functions = bit_and (le_number 4 value) other_functions }
    else if id == n401_tx_id
    then record xid { n401_tx = Option.map octets (number value) }
    else if id == n401_rx_id
    then record xid { n401_rx = Option.map octets (number value) }
    else if id == k_tx_id
    then record xid { k_tx = Option.map window (number value) }
    else if id == k_rx_id
    then record xid { k_rx = Option.map window (number value) }
    else xid

-- `for (id, value) in parameters(group)? { … }`
abbrev pub for_parameters {ℓ} : {S : Type ℓ} → (S → ℕ × List ℕ → S) → S → List ℕ → Option S
for_parameters body s group = do found ← parameters group; some (foldl body s found)

pub read_parameters : Xid → List ℕ → Option Xid
unfolding parameters read_parameter
read_parameters xid group = for_parameters read_parameter xid group

-- The locals of `read_private`.
pub record Private : Type 0 where
  pub directions : Option ℕ
  pub codewords : Option ℕ
  pub max_string : Option ℕ

abbrev pub no_private : Private
no_private = record { directions = none; codewords = none; max_string = none }

pub read_private_one : Private → ℕ × List ℕ → Private
unfolding window number
read_private_one p (id, value) =
    if id == p0
    then record p { directions = Option.map (λ n. n % 256 % 4) (number value) }
    else if id == p1
    then record p { codewords = Option.map (λ n. min n 65535) (number value) }
    else if id == p2
    then record p { max_string = Option.map window (number value) }
    else p

pub private_done : Xid → Private → Xid
private_done xid p = record xid {
  compression =
      Option.map
        (λ d. record { directions = d; codewords = p.codewords; max_string = p.max_string })
        p.directions;
}

pub read_private : Xid → List ℕ → Option Xid
unfolding parameters read_private_one private_done
read_private xid group = do
  p ← for_parameters read_private_one no_private group
  some (private_done xid p)

pub read_group : Xid → ℕ → List ℕ → Option Xid
read_group xid id group =
    if id == parameters_group
    then read_parameters xid group
    else if id == private_group
    then read_private xid group
    else some xid

-- The loop of `parse`, on fuel: each round takes three octets at least.
pub groups_loop : ℕ → Xid → List ℕ → Option Xid
unfolding prefix? read_group
groups_loop fuel xid [] = some xid
groups_loop zero xid (id ∷ tail) = none
groups_loop (suc fuel) xid (id ∷ []) = if id == user_data then some xid else none
groups_loop (suc fuel) xid (id ∷ high ∷ []) = if id == user_data then some xid else none
groups_loop (suc fuel) xid (id ∷ high ∷ low ∷ tail) =
    let len = high * 256 + low in
    let more = (do
      group ← prefix? len tail
      xid' ← read_group xid id group
      groups_loop fuel xid' (drop len tail)) in
    if id == user_data then some xid else more

unfoldable pub parse : List ℕ → Option Xid
unfolding groups_loop read_parameters read_private
parse [] = none
parse (first ∷ rest) = if first == format then groups_loop (length rest) default rest else none
