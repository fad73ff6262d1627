-- ===== src/Modem/Profile.antt =====
-- `profile` of softmodem/src/modem.rs, on a text of ASCII bytes.
pub mod Valid
use softmodem_rs.Prelude.{
  ℕ, Bool, true, false, ◌&&◌, ◌||◌, if◌then◌else◌, List, [], ◌∷◌, leb, ◌==◌, drop,
}
use softmodem_rs.Prelude.Result.{Result, ok, err}
use softmodem_rs.Terminal.Line.{starts_with_at}
use softmodem_rs.Terminal.Command.{Command, factory_reset}
use softmodem_rs.Terminal.Command.Parser.{ParseError}
use softmodem_rs.Terminal.Command.Parse.{parse}
use softmodem_rs.Terminal.Settings.{Settings, default, apply}

-- Why a profile is refused.
pub data Refusal : Type 0 where
  cannot_parse : Refusal
  does_not_belong : Command → Refusal

abbrev pub is_space : ℕ → Bool
is_space b = b == 32 || leb 9 b && leb b 13

abbrev pub trim_start : List ℕ → List ℕ
trim_start [] = []
trim_start (b ∷ text) = let rest = trim_start text in if is_space b then rest else b ∷ text

-- A byte before the end of a text, unless it is a space at the end.
abbrev pub before : ℕ → List ℕ → List ℕ
before b [] = if is_space b then [] else b ∷ []
before b (b' ∷ rest) = b ∷ b' ∷ rest

abbrev pub trim_end : List ℕ → List ℕ
trim_end [] = []
trim_end (b ∷ text) = before b (trim_end text)

unfoldable pub trim : List ℕ → List ℕ
trim text = trim_end (trim_start text)

abbrev pub without_at : List ℕ → List ℕ
without_at text = if starts_with_at text then drop 2 text else text

abbrev pub is_factory_reset : Command → Bool
is_factory_reset factory_reset = true
is_factory_reset _ = false

-- The loop over the commands.
unfoldable pub apply_all : List Command → Settings → Result Refusal Settings
apply_all [] s = ok s
apply_all (c ∷ commands) s = elim (is_factory_reset c) [
  | true ↦ apply_all commands default
  | false ↦ elim (apply c s).1 [
    | true ↦ apply_all commands (apply c s).0
    | false ↦ err (does_not_belong c)
  ]
]

abbrev pub profile_of : Result ParseError (List Command) → Result Refusal Settings
profile_of (err e) = err cannot_parse
profile_of (ok commands) = apply_all commands default

unfoldable pub profile : List ℕ → Result Refusal Settings
unfolding trim
profile init = profile_of (parse (without_at (trim init)))
