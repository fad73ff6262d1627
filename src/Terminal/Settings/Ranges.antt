-- ===== src/Terminal/Settings/Ranges.antt =====
-- About the settings of settings.rs: their ranges, and `apply`.
use softmodem_rs.Prelude.{
  ℕ, ◌≤◌, ◌≡◌, refl, ◌∙◌, Bool, Option, none, some, List, [], ◌∷◌, length, All, arith, set,
  replicate, length-set, All-set, All-replicate,
}
use softmodem_rs.Terminal.Command.{
  Command, answer, dial, echo, off_hook, identify, loudness, monitor, online, quiet, verbose,
  result_set, reset, factory_reset, carrier_detect, set_register, set_carrier, set_error_control,
  report_error_control, set_compression, report_compression, ignored, read_register, read_carrier,
  list_carriers, read_error_control, list_error_control, read_error_report, list_error_report,
  read_compression, list_compression, read_compression_report, list_compression_report, asks,
}
use softmodem_rs.Terminal.Command.Parser.{u32_max}
use softmodem_rs.Terminal.Command.Parser.Yields.{Within}
use softmodem_rs.Terminal.Command.Ranges.{IsCommand}
use softmodem_rs.Terminal.Settings.{
  Settings, ErrorControl, Compression, default, apply, set_all, register_values, choose,
  asked_errors, asked_compression,
}

pub record IsErrorControl (c : ErrorControl) : Type 0 where
  pub orig_rqst : c.orig_rqst ≤ 3
  pub orig_fbk : c.orig_fbk ≤ 3
  pub ans_fbk : c.ans_fbk ≤ 5

pub record IsCompression (c : Compression) : Type 0 where
  pub direction : c.direction ≤ 3
  pub dict_low : 512 ≤ c.max_dict
  pub dict_high : c.max_dict ≤ 65535
  pub string_low : 6 ≤ c.max_string
  pub string_high : c.max_string ≤ 250

abbrev pub IsByte : ℕ → Type 0
IsByte b = b ≤ 255

-- There are 256 registers of a byte each, and every other setting is in its command's range.
pub record IsSettings (s : Settings) : Type 0 where
  pub result_set : s.result_set ≤ 4
  pub loudness : s.loudness ≤ 3
  pub monitor : s.monitor ≤ 2
  pub max_transmit : Within 1 u32_max s.modulation.max_transmit
  pub error_control : IsErrorControl s.error_control
  pub compression : IsCompression s.compression
  pub registers : length s.registers ≡ 256
  pub bytes : All IsByte s.registers

choose-Within :
    (low high : ℕ) (n : Option ℕ) (m : ℕ)
    → Within low high n
    → low ≤ m
    → m ≤ high
    → (low ≤ choose n m) × (choose n m ≤ high)
choose-Within low high none m h l k = (l, k)
choose-Within low high (some n) m h l k = h

asked-IsErrorControl :
    (a b c : Option ℕ) (current : ErrorControl)
    → Within 0 3 a
    → Within 0 3 b
    → Within 0 5 c
    → IsErrorControl current
    → IsErrorControl (asked_errors a b c current)
asked-IsErrorControl a b c current ha hb hc h = record {
  orig_rqst = (choose-Within 0 3 a current.orig_rqst ha (omega arith) h.orig_rqst).1;
  orig_fbk = (choose-Within 0 3 b current.orig_fbk hb (omega arith) h.orig_fbk).1;
  ans_fbk = (choose-Within 0 5 c current.ans_fbk hc (omega arith) h.ans_fbk).1;
}

asked-IsCompression :
    (d : Option ℕ) (r : Option Bool) (n s : Option ℕ) (current : Compression)
    → Within 0 3 d
    → Within 512 65535 n
    → Within 6 250 s
    → IsCompression current
    → IsCompression (asked_compression d r n s current)
asked-IsCompression d r n s current hd hn hs h =
    let dict = choose-Within 512 65535 n current.max_dict hn h.dict_low h.dict_high in
    let string = choose-Within 6 250 s current.max_string hs h.string_low h.string_high in
    record {
      direction = (choose-Within 0 3 d current.direction hd (omega arith) h.direction).1;
      dict_low = dict.0;
      dict_high = dict.1;
      string_low = string.0;
      string_high = string.1;
    }

values-bytes :
    (values : List (ℕ × ℕ)) (registers : List ℕ)
    → All (λ (v : ℕ × ℕ). v.1 ≤ 255) values
    → All IsByte registers
    → All IsByte (set_all values registers)
values-bytes [] registers h k = k
values-bytes ((r, v) ∷ values) registers (p, h) k =
    values-bytes values (set registers r v) h (All-set IsByte registers r v k p)

pub default-IsSettings : IsSettings default
unfolding default
default-IsSettings = record {
  result_set = omega arith;
  loudness = omega arith;
  monitor = omega arith;
  max_transmit = tt;
  error_control = record { orig_rqst = omega arith; orig_fbk = omega arith; ans_fbk = omega arith };
  compression = record {
    direction = omega arith;
    dict_low = omega arith;
    dict_high = omega arith;
    string_low = omega arith;
    string_high = omega arith;
  };
  registers = refl;
  bytes =
      values-bytes register_values (replicate 256 0) (ground arith)
        (All-replicate IsByte 256 0 (omega arith));
}

built :
    (s : Settings)
    → s.result_set ≤ 4
    → s.loudness ≤ 3
    → s.monitor ≤ 2
    → Within 1 u32_max s.modulation.max_transmit
    → IsErrorControl s.error_control
    → IsCompression s.compression
    → length s.registers ≡ 256
    → All IsByte s.registers
    → IsSettings s
built s a b c d e f g h = record {
  result_set = a;
  loudness = b;
  monitor = c;
  max_transmit = d;
  error_control = e;
  compression = f;
  registers = g;
  bytes = h;
}

report-IsErrorControl :
    (c : ErrorControl) (on : Bool) → IsErrorControl c → IsErrorControl (record c { report = on })
report-IsErrorControl c on h = record {
  orig_rqst = h.orig_rqst;
  orig_fbk = h.orig_fbk;
  ans_fbk = h.ans_fbk;
}

report-IsCompression :
    (c : Compression) (on : Bool) → IsCompression c → IsCompression (record c { report = on })
report-IsCompression c on h = record {
  direction = h.direction;
  dict_low = h.dict_low;
  dict_high = h.dict_high;
  string_low = h.string_low;
  string_high = h.string_high;
}

-- Every command with its values in their ranges keeps the settings in theirs.
pub apply-IsSettings :
    (c : Command) (s : Settings) → IsCommand c → IsSettings s → IsSettings (apply c s).0
unfolding apply
apply-IsSettings (echo on) s h k =
    built _ k.result_set k.loudness k.monitor k.max_transmit k.error_control k.compression
      k.registers k.bytes
apply-IsSettings (quiet on) s h k =
    built _ k.result_set k.loudness k.monitor k.max_transmit k.error_control k.compression
      k.registers k.bytes
apply-IsSettings (verbose on) s h k =
    built _ k.result_set k.loudness k.monitor k.max_transmit k.error_control k.compression
      k.registers k.bytes
apply-IsSettings (carrier_detect on) s h k =
    built _ k.result_set k.loudness k.monitor k.max_transmit k.error_control k.compression
      k.registers k.bytes
apply-IsSettings (result_set level) s h k =
    built _ h k.loudness k.monitor k.max_transmit k.error_control k.compression k.registers k.bytes
apply-IsSettings (loudness level) s h k =
    built _ k.result_set h k.monitor k.max_transmit k.error_control k.compression k.registers
      k.bytes
apply-IsSettings (monitor mode) s h k =
    built _ k.result_set k.loudness h k.max_transmit k.error_control k.compression k.registers
      k.bytes
apply-IsSettings (set_carrier c auto rate) s h k =
    built _ k.result_set k.loudness k.monitor h k.error_control k.compression k.registers k.bytes
apply-IsSettings (set_error_control a b c) s (ha, hb, hc) k =
    built _ k.result_set k.loudness k.monitor k.max_transmit
      (asked-IsErrorControl a b c s.error_control ha hb hc k.error_control) k.compression
      k.registers k.bytes
apply-IsSettings (report_error_control on) s h k =
    built _ k.result_set k.loudness k.monitor k.max_transmit
      (report-IsErrorControl s.error_control on k.error_control) k.compression k.registers k.bytes
apply-IsSettings (set_compression d r n t) s (hd, hn, ht) k =
    built _ k.result_set k.loudness k.monitor k.max_transmit k.error_control
      (asked-IsCompression d r n t s.compression hd hn ht k.compression) k.registers k.bytes
apply-IsSettings (report_compression on) s h k =
    built _ k.result_set k.loudness k.monitor k.max_transmit k.error_control
      (report-IsCompression s.compression on k.compression) k.registers k.bytes
apply-IsSettings (set_register r v) s (_, h) k =
    built _ k.result_set k.loudness k.monitor k.max_transmit k.error_control k.compression
      (length-set s.registers r v ∙ k.registers) (All-set IsByte s.registers r v k.bytes h)
apply-IsSettings ignored s h k = k
apply-IsSettings answer s h k = k
apply-IsSettings (dial d) s h k = k
apply-IsSettings (off_hook on) s h k = k
apply-IsSettings (identify n) s h k = k
apply-IsSettings (online retrain) s h k = k
apply-IsSettings reset s h k = k
apply-IsSettings factory_reset s h k = k
apply-IsSettings (read_register r) s h k = k
apply-IsSettings read_carrier s h k = k
apply-IsSettings list_carriers s h k = k
apply-IsSettings read_error_control s h k = k
apply-IsSettings list_error_control s h k = k
apply-IsSettings read_error_report s h k = k
apply-IsSettings list_error_report s h k = k
apply-IsSettings read_compression s h k = k
apply-IsSettings list_compression s h k = k
apply-IsSettings read_compression_report s h k = k
apply-IsSettings list_compression_report s h k = k
apply-IsSettings (asks q) s h k = k
