-- ===== src/V42bis/Encoder.antt =====
-- `BitWriter` and `Encoder` of v42bis.rs. Octets go to a list, which `encode` and `flush` take.
pub mod Width
use softmodem_rs.Prelude.{
  ℕ, zero, suc, ◌+◌, ◌*◌, ◌%◌, ◌^◌, max, Bool, true, false, not, ◌&&◌, Option, none, some, List, [],
  ◌∷◌, ◌++◌, ◌==◌, ltb, leb, if◌then◌else◌,
}
use softmodem_rs.V42bis.Parameters.{Parameters, bit_length}
use softmodem_rs.V42bis.Dictionary.{Dictionary, Matcher, new_matcher, push}
use softmodem_rs.V42bis.Dictionary
use softmodem_rs.V42bis.BitWriter.{BitWriter}
use softmodem_rs.V42bis.BitWriter

-- ETM, FLUSH, STEPUP
abbrev pub etm : ℕ
etm = 0

abbrev pub flush_code : ℕ
flush_code = 1

abbrev pub stepup : ℕ
stepup = 2

-- ECM, EID, RESET
abbrev pub ecm : ℕ
ecm = 0

abbrev pub eid : ℕ
eid = 1

abbrev pub reset_code : ℕ
reset_code = 2

abbrev pub escape_step : ℕ
escape_step = 51

abbrev pub test_window : ℕ
test_window = 512

pub data Mode : Type 0 where
  transparent : Mode
  compressed : Mode

pub record Encoder : Type 0 where
  pub parameters : Parameters
  pub dictionary : Dictionary
  pub matcher : Matcher
  pub mode : Mode
  pub escape : ℕ
  pub width : ℕ
  pub writer : BitWriter
  pub window_characters : ℕ
  pub window_bits : ℕ

unfoldable pub new : Parameters → Encoder
unfolding Dictionary.new
new p = record {
  parameters = p;
  dictionary = Dictionary.new p;
  matcher = new_matcher;
  mode = transparent;
  escape = 0;
  width = 9;
  writer = record { bits = 0; count = 0; out = [] };
  window_characters = 0;
  window_bits = 0;
}

abbrev is_compressed : Mode → Bool
is_compressed transparent = false
is_compressed compressed = true

abbrev pub compressing : Encoder → Bool
compressing e = is_compressed e.mode

abbrev pub append : BitWriter → List ℕ → BitWriter
append w octets = record w { out = w.out ++ octets }

unfoldable pub put : Encoder → ℕ → Encoder
unfolding BitWriter.put
put e code = record e { writer = BitWriter.put e.writer code e.width }

-- The loop of `codeword`: the encoder after the STEPUPs, and their bits.
unfoldable pub step_up : ℕ → Encoder → ℕ → ℕ → Encoder × ℕ
unfolding put
step_up zero e code bits = (e, bits)
step_up (suc fuel) e code bits =
    let e' = put e stepup in
    let rest = step_up fuel (record e' { width = e.width + 1 }) code (bits + e.width) in
    if leb (2 ^ e.width) code then rest else (e, bits)

-- A codeword has 16 bits, so 16 STEPUPs are enough.
unfoldable pub codeword : Encoder → ℕ → Encoder × ℕ
unfolding put step_up
codeword e code = let (e', bits) = step_up 16 e code 0 in (put e' code, bits + e'.width)

unfoldable pub width_for : Encoder → ℕ → ℕ
unfolding bit_length
width_for e code = max e.width (bit_length 16 code)

-- The string held back, if it can end here.
abbrev pub held_back : Encoder → Option ℕ
held_back e = if e.matcher.exception then none else e.matcher.string

abbrev pub with_exception : Matcher → Matcher
with_exception m = record m { exception = true }

-- What leaves compressed mode: the string held back, then ETM.
unfoldable pub leave_compressed : Encoder → Encoder
unfolding put codeword BitWriter.align
leave_compressed e =
    let e' : Encoder = elim (held_back e) [ none ↦ e | some string ↦ (codeword e string).0 ] in
    let sent = put e' etm in
    record sent {
      writer = BitWriter.align sent.writer;
      mode = transparent;
      matcher = with_exception sent.matcher;
    }

abbrev enter_compressed : Encoder → Encoder
enter_compressed e = record e {
  writer = append e.writer (e.escape ∷ ecm ∷ []);
  mode = compressed;
  matcher = with_exception e.matcher;
}

unfoldable pub test_compressibility : Encoder → Encoder
unfolding leave_compressed
test_compressibility e =
    let raw = e.window_characters * 8 in
    let e' : Encoder = record e { window_characters = 0; window_bits = 0 } in
    if not (compressing e) && ltb (e.window_bits * 4) (raw * 3)
    then enter_compressed e'
    else if compressing e && ltb raw e.window_bits
    then leave_compressed e'
    else e'

-- The match of `character` on the mode, with the string that the character ended.
unfoldable pub send : Encoder → Mode → ℕ → Option ℕ → Encoder
unfolding codeword width_for
send e compressed character none = e
send e compressed character (some string) =
    let (e', bits) = codeword e string in record e' { window_bits = e'.window_bits + bits }
send e transparent character ended =
    let octets = if character == e.escape then character ∷ eid ∷ [] else character ∷ [] in
    let bits : ℕ = elim ended [ none ↦ 0 | some string ↦ width_for e string ] in
    record e { window_bits = e.window_bits + bits; writer = append e.writer octets }

abbrev pub next_escape : ℕ → ℕ → ℕ
next_escape escape character =
    if character == escape then (escape + escape_step) % 2 ^ 8 else escape

unfoldable pub character : Encoder → ℕ → Encoder
unfolding push send test_compressibility
character e c =
    let (next, ended) = push e.matcher e.dictionary c in
    let pushed : Encoder = record e { matcher = next.0; dictionary = next.1 } in
    let sent = send pushed e.mode c ended in
    let e' : Encoder = record sent {
      escape = next_escape sent.escape c;
      window_characters = sent.window_characters + 1;
    } in
    if e'.window_characters == test_window then test_compressibility e' else e'

unfoldable pub characters : Encoder → List ℕ → Encoder
unfolding character
characters e [] = e
characters e (c ∷ cs) = characters (character e c) cs

-- `std::mem::take`
abbrev pub take_out : Encoder → Encoder × List ℕ
take_out e =
    let w = e.writer in
    (record e { writer = record { bits = w.bits; count = w.count; out = [] } }, w.out)

unfoldable pub encode : Encoder → List ℕ → Encoder × List ℕ
unfolding characters
encode e data' = take_out (characters e data')

-- What `flush` does when a string is held back in compressed mode.
unfoldable pub flush_string : Encoder → ℕ → Encoder
unfolding put codeword BitWriter.align
flush_string e string =
    let sent = (codeword e string).0 in
    let e' : Encoder = record sent { matcher = with_exception sent.matcher } in
    let put' = put e' flush_code in
    if BitWriter.aligned e'.writer then e' else record put' { writer = BitWriter.align put'.writer }

unfoldable pub flush : Encoder → Encoder × List ℕ
unfolding flush_string
flush e =
    if compressing e
    then elim (held_back e) [ none ↦ take_out e | some string ↦ take_out (flush_string e string) ]
    else take_out e
