-- ===== src/V42bis/Decoder.antt =====
-- `Decoder` of v42bis.rs. The data recovered is a list that every step appends to, which an error
-- keeps too.
pub mod Hanging
pub mod Transparent
use softmodem_rs.Prelude.{
  ℕ, zero, suc, ◌+◌, ◌-◌, ◌*◌, ◌/◌, ◌%◌, ◌^◌, Bool, true, false, Option, none, some, List, [], ◌∷◌,
  ◌++◌, ◌==◌, ltb, leb, if◌then◌else◌, bit_or, get_or,
}
use softmodem_rs.Prelude.Result.{Result, ok, err, ◌>>=◌}
use softmodem_rs.V42bis.Parameters.{Parameters, max_bits}
use softmodem_rs.V42bis.Dictionary.{
  Dictionary, Matcher, new_matcher, push, string, add, unused, endless, spells,
}
use softmodem_rs.V42bis.Dictionary
use softmodem_rs.V42bis.Encoder.{
  Mode, transparent, compressed, etm, flush_code, stepup, ecm, eid, reset_code, escape_step,
  next_escape,
}

pub data Error : Type 0 where
  stepup_past_maximum : Error
  codeword_is_next_empty : Error
  empty_entry : Error
  reserved_command : Error

pub record Decoder : Type 0 where
  pub parameters : Parameters
  pub dictionary : Dictionary
  pub matcher : Matcher
  pub mode : Mode
  pub escape : ℕ
  pub escaped : Bool
  pub width : ℕ
  pub bits : ℕ
  pub count : ℕ
  pub previous : Option ℕ

unfoldable pub new : Parameters → Decoder
unfolding Dictionary.new
new p = record {
  parameters = p;
  dictionary = Dictionary.new p;
  matcher = new_matcher;
  mode = transparent;
  escape = 0;
  escaped = false;
  width = 9;
  bits = 0;
  count = 0;
  previous = none;
}

-- Why a run gives no decoder: an error, or a string whose walk does not end, where the source does
-- not return.
pub data Stop : Type 0 where
  failed : Error → Stop
  hangs : Stop

-- The decoder and the data so far, or why there is none and the data so far.
abbrev pub Decoded : Type 0
Decoded = Result (Stop × List ℕ) (Decoder × List ℕ)

-- A character of the far end in transparent mode.
unfoldable pub receive : Decoder → ℕ → Decoder
unfolding push
receive d character =
    let next = (push d.matcher d.dictionary character).0 in
    record d { matcher = next.0; dictionary = next.1 }

-- The escape character itself was sent, and the next one takes its place.
unfoldable pub escape_character : Decoder → Decoder
unfolding receive
escape_character d =
    let d' = receive d d.escape in record d' { escape = (d.escape + escape_step) % 2 ^ 8 }

-- The match of `transparent` on the octet after an escape, of a decoder that is no longer escaped.
unfoldable pub command : Decoder → ℕ → List ℕ → Decoded
unfolding escape_character new
command d octet out =
    if octet == ecm
    then ok (record d { mode = compressed; previous = d.matcher.string; bits = 0; count = 0 }, out)
    else if octet == eid
    then ok (escape_character d, out ++ d.escape ∷ [])
    else if octet == reset_code
    then ok (new d.parameters, out)
    else err (failed reserved_command, out)

unfoldable pub transparent_octet : Decoder → ℕ → List ℕ → Decoded
unfolding receive command
transparent_octet d octet out =
    if d.escaped
    then command (record d { escaped = false }) octet out
    else if octet == d.escape
    then ok (record d { escaped = true }, out)
    else ok (receive d octet, out ++ octet ∷ [])

unfoldable pub align : Decoder → Decoder
align d = let drop = d.count % 8 in record d { bits = d.bits / 2 ^ drop; count = d.count - drop }

abbrev pub escapes : ℕ → List ℕ → ℕ
escapes escape [] = escape
escapes escape (character ∷ characters) = escapes (next_escape escape character) characters

-- `if let Some(previous) = self.previous`
abbrev extend : Decoder → List ℕ → Dictionary
extend d characters = elim d.previous [
  | none ↦ d.dictionary
  | some previous ↦ (add d.dictionary previous (get_or characters 0 0)).0
]

-- A codeword that stands for a string.
unfoldable pub string_codeword : Decoder → ℕ → List ℕ → Decoded
unfolding string add
string_codeword d code out =
    if code == d.dictionary.next
    then err (failed codeword_is_next_empty, out)
    else elim (string d.dictionary code) [
      | unused ↦ err (failed empty_entry, out)
      | endless ↦ err (hangs, out)
      | spells characters ↦ ok (
        record d {
          dictionary = extend d characters;
          previous = some code;
          escape = escapes d.escape characters;
        },
        out ++ characters,
      )
    ]

unfoldable pub codeword : Decoder → ℕ → List ℕ → Decoded
unfolding align string_codeword max_bits
codeword d code out =
    if code == etm
    then ok (
      record (align d) {
        mode = transparent;
        matcher = record { string = d.previous; last_created = none; exception = true };
      },
      out,
    )
    else if code == flush_code
    then ok (align d, out)
    else if code == stepup
    then if ltb (max_bits d.parameters) (d.width + 1)
      then err (failed stepup_past_maximum, out)
      else ok (record d { width = d.width + 1 }, out)
    else string_codeword d code out

abbrev is_compressed : Mode → Bool
is_compressed transparent = false
is_compressed compressed = true

-- The `while` of `decode`; every turn takes `width` bits, so `count` turns are enough.
unfoldable pub codewords : ℕ → Decoder → List ℕ → Decoded
unfolding codeword
codewords zero d out = ok (d, out)
codewords (suc fuel) d out =
    let d' : Decoder = record d { bits = d.bits / 2 ^ d.width; count = d.count - d.width } in
    let rest = codeword d' (d.bits % 2 ^ d.width) out >>= λ r. codewords fuel r.0 r.1 in
    elim d.mode [
      | transparent ↦ ok (d, out)
      | compressed ↦ if leb d.width d.count then rest else ok (d, out)
    ]

-- `decode` on one octet.
unfoldable pub octet : Decoder → Mode → ℕ → List ℕ → Decoded
unfolding transparent_octet codewords
octet d transparent byte out = transparent_octet d byte out
octet d compressed byte out =
    let d' : Decoder = record d {
      bits = bit_or d.bits (byte * 2 ^ d.count % 2 ^ 32);
      count = d.count + 8;
    } in
    codewords d'.count d' out

unfoldable pub decode : Decoder → List ℕ → List ℕ → Decoded
unfolding octet
decode d [] out = ok (d, out)
decode d (byte ∷ bytes) out = octet d d.mode byte out >>= λ r. decode r.0 bytes r.1
