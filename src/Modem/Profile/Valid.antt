-- ===== src/Modem/Profile/Valid.antt =====
-- About the settings of a stored profile of modem.rs, and what they make of a line.
use softmodem_rs.Prelude.{
  ℕ, ◌≡◌, refl, subst, Bool, true, false, Option, none, some, List, [], ◌∷◌, All, arith, ◌==◌,
  if_cases,
}
use softmodem_rs.Prelude.Result.{Result, ok, err}
use softmodem_rs.Lapm.State.{Role}
use softmodem_rs.V42bis.Parameters.{valid}
use softmodem_rs.Link.State.{CompressionSetup}
use softmodem_rs.Terminal.Command.{Command}
use softmodem_rs.Terminal.Command.Parser.{ParseError}
use softmodem_rs.Terminal.Command.Parse.{parse}
use softmodem_rs.Terminal.Command.Ranges.{IsCommand}
use softmodem_rs.Terminal.Command.Ranges.Line.{parse-IsCommand}
use softmodem_rs.Terminal.Settings.{Settings, Compression, default, apply}
use softmodem_rs.Terminal.Settings.Ranges.{
  IsSettings, IsCompression, default-IsSettings, apply-IsSettings,
}
use softmodem_rs.Modem.{header, setups_of, compression_of}
use softmodem_rs.Modem.Profile.{
  Refusal, is_factory_reset, apply_all, profile_of, profile, without_at, trim,
}

-- A refused profile has no settings.
abbrev AreSettings : Result Refusal Settings → Type 0
AreSettings (ok s) = IsSettings s
AreSettings (err e) = Unit

applied-AreSettings :
    (c : Command) (b : Bool) (r : Result Refusal Settings)
    → AreSettings r
    → AreSettings (elim b [ true ↦ r | false ↦ err (Refusal.does_not_belong c) ])
applied-AreSettings c true r h = h
applied-AreSettings c false r h = tt

chosen-AreSettings :
    (b : Bool) (r r' : Result Refusal Settings)
    → AreSettings r
    → AreSettings r'
    → AreSettings (elim b [ true ↦ r | false ↦ r' ])
chosen-AreSettings true r r' h h' = h
chosen-AreSettings false r r' h h' = h'

apply_all-AreSettings :
    (cs : List Command) (s : Settings)
    → All IsCommand cs
    → IsSettings s
    → AreSettings (apply_all cs s)
unfolding apply_all
apply_all-AreSettings [] s h k = k
apply_all-AreSettings (c ∷ cs) s (h, hs) k =
    chosen-AreSettings (is_factory_reset c) _ _
      (apply_all-AreSettings cs default hs default-IsSettings)
      (applied-AreSettings c (apply c s).1 _
        (apply_all-AreSettings cs (apply c s).0 hs (apply-IsSettings c s h k)))

profile_of-AreSettings :
    (r : Result ParseError (List Command))
    → ((cs : List Command) → r ≡ ok cs → All IsCommand cs)
    → AreSettings (profile_of r)
profile_of-AreSettings (err e) h = tt
profile_of-AreSettings (ok cs) h = apply_all-AreSettings cs default (h cs refl) default-IsSettings

-- Whatever text the stored profile is given as, the settings that it makes are in their ranges.
pub profile-IsSettings : (init : List ℕ) (s : Settings) → profile init ≡ ok s → IsSettings s
unfolding profile
profile-IsSettings init s e =
    let text = without_at (trim init) in
    subst AreSettings e (profile_of-AreSettings (parse text) (parse-IsCommand text))

-- What a setup offers of V.42 bis has parameters that the negotiation takes.
abbrev pub IsOffer : Option CompressionSetup → Type 0
IsOffer none = Unit
IsOffer (some c) = valid c.offer.parameters ≡ true

compression_of-IsOffer : (c : Compression) → IsCompression c → IsOffer (compression_of c)
unfolding compression_of
compression_of-IsOffer c h =
    if_cases IsOffer (c.direction == 0) none _ (λ _. tt)
      (λ _. ground (arith, h.dict_low, h.string_low, h.string_high))

-- Of a line that starts under settings in their ranges, whatever its role, both setups offer V.42 bis
-- with valid parameters, if at all.
pub header-IsOffer :
    (s : Settings) (role : Option Role)
    → IsSettings s
    → IsOffer (header s role).setups.originate.compression
      × IsOffer (header s role).setups.answer.compression
unfolding header setups_of
header-IsOffer s role h =
    let offer = compression_of-IsOffer s.compression h.compression in (offer, offer)
