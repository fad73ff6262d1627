-- ===== src/Modem/Session/Run.antt =====
-- `run` of softmodem/src/modem.rs: what the modem may meet in each state, as a step relation.
use softmodem_rs.Prelude.{ℕ, ◌≡◌, refl, true, false, Option, List}
use softmodem_rs.Prelude.Result.{ok}
use softmodem_rs.Lapm.State.{Role}
use softmodem_rs.Terminal.Line
use softmodem_rs.Modem.{header}
use softmodem_rs.Modem.Profile
use softmodem_rs.Modem.Profile.Valid.{IsOffer, profile-IsSettings, header-IsOffer}
use softmodem_rs.Terminal.Settings.{Settings}
use softmodem_rs.Terminal.Settings.Ranges.{IsSettings}
use softmodem_rs.Modem.Session.{Modem, LineOps, World, new, sync_dcd, put_down}
use softmodem_rs.Modem.Session.Calls.{is_some, Incoming, incoming, ring_now, stop_ringing}
use softmodem_rs.Modem.Session.Computer.{computer_sent}
use softmodem_rs.Modem.Session.Signals.{Sending, tick, line_sent}
use softmodem_rs.Modem.Session.Shape.{IsModem}
use softmodem_rs.Modem.Session.Shape.Basic.{sync_dcd-IsModem, put_down-IsModem}
use softmodem_rs.Modem.Session.Shape.Calls.{
  incoming-IsModem, ring_now-IsModem, stop_ringing-IsModem,
}
use softmodem_rs.Modem.Session.Shape.Computer.{
  computer_sent-IsModem, editor-IsModem, off_hook-IsModem,
}
use softmodem_rs.Modem.Session.Shape.Signals.{tick-IsModem, line_sent-IsModem}

module _ {L S : Type 0} where
  new-IsModem : (profile : Settings) → IsSettings profile → IsModem (new {L = L} {S = S} profile)
  unfolding new
  new-IsModem profile h = record { agrees = refl; settings = h; profile = h }

module _ {L C S : Type 0} where
  -- The computer's input ends, on a port that takes another computer.
  unfoldable pub next_computer : LineOps L C S → World C S → Modem L S → Modem L S
  unfolding put_down Line.new
  next_computer ops w m = record (put_down ops w m) { off_hook = false; editor = Line.new }

  -- A turn of the loop, by the branch of the `select!` that it takes and under its condition.
  pub data Step (version : List ℕ) (ops : LineOps L C S) : Modem L S → Modem L S → Type 0 where
    types :
        (m : Modem L S) (bytes : List (ℕ × World C S))
        → Step version ops m (computer_sent version ops bytes m)
    leaves : (m : Modem L S) (w : World C S) → Step version ops m (next_computer ops w m)
    calls :
        (m : Modem L S) (w : World C S) (i : Incoming)
        → is_some m.line ≡ false
        → Step version ops m (incoming w i m)
    rings :
        (m : Modem L S) (w : World C S)
        → is_some m.ringing ≡ true
        → Step version ops m (ring_now ops w m)
    falls_silent : (m : Modem L S) → is_some m.ring_off ≡ true → Step version ops m (stop_ringing m)
    ticks :
        (m : Modem L S) (w : World C S) (sending : Sending)
        → is_some m.line ≡ true
        → Step version ops m (tick ops w sending m)
    hears :
        (m : Modem L S) (w : World C S) (samples : Option S)
        → is_some m.line ≡ true
        → Step version ops m (line_sent ops w samples m)

  -- The states that the loop reaches from the start under a profile.
  pub data Reaches (version : List ℕ) (ops : LineOps L C S) (profile : Settings)
      : Modem L S → Type 0 where
    starts : Reaches version ops profile (sync_dcd ops (new profile))
    turns :
        {m m' : Modem L S}
        → Reaches version ops profile m
        → Step version ops m m'
        → Reaches version ops profile m'

  next_computer-IsModem :
      (ops : LineOps L C S) (w : World C S) (m : Modem L S)
      → IsModem m
      → IsModem (next_computer ops w m)
  unfolding next_computer
  next_computer-IsModem ops w m h =
      editor-IsModem Line.new _ (off_hook-IsModem _ (put_down-IsModem ops w m h))

  Step-IsModem :
      (version : List ℕ) (ops : LineOps L C S) {m m' : Modem L S}
      → Step version ops m m'
      → IsModem m
      → IsModem m'
  Step-IsModem version ops (types m bytes) h = computer_sent-IsModem version ops bytes m h
  Step-IsModem version ops (leaves m w) h = next_computer-IsModem ops w m h
  Step-IsModem version ops (calls m w i e) h = incoming-IsModem w i m h
  Step-IsModem version ops (rings m w e) h = ring_now-IsModem ops w m h
  Step-IsModem version ops (falls_silent m e) h = stop_ringing-IsModem m h
  Step-IsModem version ops (ticks m w sending e) h = tick-IsModem ops w sending m h
  Step-IsModem version ops (hears m w samples e) h = line_sent-IsModem ops w samples m h

  -- Under a profile in range, in every state that the loop reaches, whatever the line does, there is a line
  -- exactly in the modes other than the command mode, nothing rings on a line or off the hook, only a
  -- line is connected, and the settings and the profile are in their ranges.
  pub Reaches-IsModem :
      (version : List ℕ) (ops : LineOps L C S) (profile : Settings) (m : Modem L S)
      → IsSettings profile
      → Reaches version ops profile m
      → IsModem m
  Reaches-IsModem version ops profile m h starts = sync_dcd-IsModem ops _ (new-IsModem profile h)
  Reaches-IsModem version ops profile m h (turns r s) =
      Step-IsModem version ops s (Reaches-IsModem version ops profile _ h r)

  -- From a stored profile that is accepted, in every state that the loop reaches, whatever line starts next in
  -- whatever role offers V.42 bis with valid parameters, if at all, as the caller and as the called.
  pub Reaches-IsOffer :
      (version : List ℕ) (ops : LineOps L C S) (init : List ℕ) (profile : Settings) (m : Modem L S)
      (role : Option Role)
      → Profile.profile init ≡ ok profile
      → Reaches version ops profile m
      → IsOffer (header m.settings role).setups.originate.compression
        × IsOffer (header m.settings role).setups.answer.compression
  Reaches-IsOffer version ops init profile m role e r =
      let h = Reaches-IsModem version ops profile m (profile-IsSettings init profile e) r in
      header-IsOffer m.settings role h.settings
