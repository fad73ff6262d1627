-- ===== src/Terminal/Command/Ranges/Extended.antt =====
-- The extended commands of command.rs, after `+`.
use softmodem_rs.Prelude.{
  ℕ, zero, suc, Bool, true, false, ◌&&◌, Option, none, some, List, [], ◌∷◌, length, All, arith,
  ◌==◌,
}
use softmodem_rs.Terminal.Command.{
  Carrier, carriers, name, Query, Command, set_error_control, report_error_control,
  read_error_report, list_error_report, read_compression_report, list_compression_report,
  set_compression, report_compression, asks, ignored,
}
use softmodem_rs.Terminal.Command.Parser.{◌>>=◌, give, is_byte, u32_max, i32_max}
use softmodem_rs.Terminal.Command.Parser.Yields.{
  Yields, bind-Yields, give-Yields, fail-Yields, either-Yields, Anything, next-Yields, skip-Yields,
  peek-Yields, take_while-Yields, Within, number-Yields, value-Yields,
}
use softmodem_rs.Terminal.Command.Extended.{
  nth, small, parameter, set_errors, error_control, set_compressing, compression,
  compression_ranges, is_one, flag_value, compression_report, error_report, peek_asked, identity,
  fax_class, country, find_carrier, same_text, automode_of, automode, rates_from, rates, positive,
  set_modulation, modulation,
}
use softmodem_rs.Terminal.Command.Ranges.{
  IsCommand, end_extended-Yields, Fits, subparameters-Yields, parameter-Yields,
}

small-Within : (low high : ℕ) (n : Option ℕ) → Within low high n → Within low high (small n)
small-Within low high none h = tt
small-Within low high (some n) h = ground arith

errors-IsCommand :
    (vs : List (Option ℕ))
    → Fits ((0, 3) ∷ (0, 3) ∷ (0, 5) ∷ []) vs
    → IsCommand (set_error_control (small (nth vs 0)) (small (nth vs 1)) (small (nth vs 2)))
errors-IsCommand [] h = elim h [ ]
errors-IsCommand (a ∷ []) (h, k) = elim k [ ]
errors-IsCommand (a ∷ b ∷ []) (h, (k, l)) = elim l [ ]
errors-IsCommand (a ∷ b ∷ c ∷ vs) (h, (k, (l, _))) =
    (small-Within 0 3 a h, small-Within 0 3 b k, small-Within 0 5 c l)

compressing-IsCommand :
    (vs : List (Option ℕ))
    → Fits ((0, 3) ∷ compression_ranges) vs
    → IsCommand
        (set_compression (small (nth vs 0)) (is_one (nth vs 1)) (nth vs 2) (small (nth vs 3)))
compressing-IsCommand [] h = elim h [ ]
compressing-IsCommand (a ∷ []) (h, k) = elim k [ ]
compressing-IsCommand (a ∷ b ∷ []) (h, (k, l)) = elim l [ ]
compressing-IsCommand (a ∷ b ∷ c ∷ []) (h, (k, (l, m))) = elim m [ ]
compressing-IsCommand (a ∷ b ∷ c ∷ d ∷ vs) (h, (k, (l, (m, _)))) =
    (small-Within 0 3 a h, l, small-Within 6 250 d m)

pub error_control-Yields : Yields error_control IsCommand
unfolding error_control set_errors
error_control-Yields =
    parameter-Yields _ _ _ tt tt (
      bind-Yields _ (subparameters-Yields (0, 3) _) (λ vs h. give-Yields _ (errors-IsCommand vs h)))

pub compression-Yields : Yields compression IsCommand
unfolding compression set_compressing
compression-Yields = parameter-Yields _ _ _ tt tt (
    bind-Yields _ (subparameters-Yields (0, 3) _)
      (λ vs h. give-Yields _ (compressing-IsCommand vs h)))

pub flag_value-Yields : Yields flag_value Anything
unfolding flag_value
flag_value-Yields = bind-Yields _ (value-Yields 1) (λ n _. give-Yields (n == 1) tt)

report-Yields :
    (read list : Command) (report : Bool → Command)
    → IsCommand read
    → IsCommand list
    → ((on : Bool) → IsCommand (report on))
    → Yields (parameter read list (flag_value >>= λ on. give (report on))) IsCommand
report-Yields read list report r l h =
    parameter-Yields read list _ r l
      (bind-Yields _ flag_value-Yields (λ on _. give-Yields (report on) (h on)))

peek_asked-Yields : Yields peek_asked Anything
unfolding peek_asked
peek_asked-Yields = record { yields = λ text. (tt, omega arith) }

pub identity-Yields : (q : Query) → Yields (identity q) IsCommand
unfolding identity
identity-Yields q = bind-Yields _ peek_asked-Yields (λ listing _.
    either-Yields listing
      (bind-Yields _ skip-Yields
        (λ a _. bind-Yields _ skip-Yields (λ b _. end_extended-Yields ignored tt)))
      (end_extended-Yields (asks q) tt))

pub fax_class-Yields : Yields fax_class IsCommand
unfolding fax_class
fax_class-Yields =
    parameter-Yields _ _ _ tt tt (bind-Yields _ (value-Yields 0) (λ n _. give-Yields ignored tt))

pub country-Yields : Yields country IsCommand
unfolding country
country-Yields = parameter-Yields _ _ _ tt tt (
    bind-Yields _ next-Yields (λ a _. bind-Yields _ next-Yields (λ b _.
      either-Yields (is_byte a b'B' && is_byte b b'5') (give-Yields ignored tt) fail-Yields)))

find_carrier-Yields : (cs : List Carrier) (text : List ℕ) → Yields (find_carrier cs text) Anything
unfolding find_carrier
find_carrier-Yields [] text = fail-Yields
find_carrier-Yields (c ∷ cs) text =
    either-Yields (same_text (name c) text) (give-Yields c tt) (find_carrier-Yields cs text)

automode_of-Yields : (n : Option ℕ) → Yields (automode_of n) Anything
automode_of-Yields none = give-Yields true tt
automode_of-Yields (some zero) = give-Yields false tt
automode_of-Yields (some (suc zero)) = give-Yields true tt
automode_of-Yields (some (suc (suc n))) = fail-Yields

automode-Yields : Yields automode Anything
unfolding automode
automode-Yields = bind-Yields _ peek-Yields (λ comma _.
    either-Yields (is_byte comma b',')
      (bind-Yields _ skip-Yields
        (λ s _. bind-Yields _ (number-Yields i32_max) (λ n _. automode_of-Yields n)))
      (give-Yields true tt))

abbrev IsRates : List (Option ℕ) → Type 0
IsRates rates = All (Within 0 u32_max) rates

rates_from-Yields : (fuel : ℕ) → Yields (rates_from fuel) IsRates
unfolding rates_from
rates_from-Yields zero = give-Yields [] tt
rates_from-Yields (suc fuel) = bind-Yields _ peek-Yields (λ comma _.
    either-Yields (is_byte comma b',')
      (bind-Yields _ skip-Yields (λ s _. bind-Yields _ (number-Yields u32_max) (λ rate h.
        bind-Yields _ (rates_from-Yields fuel) (λ rest hs. give-Yields (rate ∷ rest) (h, hs)))))
      (give-Yields [] tt))

rates-Yields : Yields rates IsRates
unfolding rates
rates-Yields = record { yields = λ text. (rates_from-Yields (length text)).yields text }

positive-Within : (n : Option ℕ) → Within 0 u32_max n → Within 1 u32_max (positive n)
positive-Within none h = tt
positive-Within (some n) h = ground arith

nth-Within : (rates : List (Option ℕ)) → IsRates rates → Within 0 u32_max (nth rates 1)
nth-Within [] h = tt
nth-Within (a ∷ []) h = tt
nth-Within (a ∷ b ∷ rest) (h, (k, hs)) = k

pub modulation-Yields : Yields modulation IsCommand
unfolding modulation set_modulation
modulation-Yields = parameter-Yields _ _ _ tt tt (
    bind-Yields _ (take_while-Yields _) (λ text _.
      bind-Yields _ (find_carrier-Yields carriers text) (λ c _.
        bind-Yields _ automode-Yields (λ auto _.
          bind-Yields _ rates-Yields
            (λ rates h. give-Yields _ (positive-Within (nth rates 1) (nth-Within rates h)))))))

pub error_report-Yields : Yields error_report IsCommand
unfolding error_report
error_report-Yields =
    report-Yields read_error_report list_error_report report_error_control tt tt (λ on. tt)

pub compression_report-Yields : Yields compression_report IsCommand
unfolding compression_report
compression_report-Yields =
    report-Yields read_compression_report list_compression_report report_compression tt tt
      (λ on. tt)
