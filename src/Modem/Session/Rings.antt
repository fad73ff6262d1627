-- ===== src/Modem/Session/Rings.antt =====
-- About `ring` of softmodem/src/modem.rs, with the counter of rings and the answer by itself.
pub mod Taking
use softmodem_rs.Prelude.{◌+◌, ◌<◌, ◌≡◌, refl, ◌∙◌, true, false, some, List, [], ◌∷◌, arith, length}
use softmodem_rs.Terminal.Settings.{register, auto_answer_rings}
use softmodem_rs.Modem.Session.{Modem, LineOps, World}
use softmodem_rs.Modem.Session.Calls.{is_some, ring_now}
use softmodem_rs.Modem.Session.Shape.{IsModem}
use softmodem_rs.Modem.Session.Shape.Calls.{ring_now-IsModem}
use softmodem_rs.Modem.Session.Rings.Taking.{
  Takes, get_or-byte, ring_once-Takes, ring_once-rings_on,
}

module _ {L C S : Type 0} (ops : LineOps L C S) where
  -- A ring in each of the worlds.
  abbrev pub ring_all : List (World C S) → Modem L S → Modem L S
  ring_all [] m = m
  ring_all (w ∷ ws) m = ring_all ws (ring_now ops w m)

  -- One ring of those before the one that answers.
  ring_now-rings_on :
      (w : World C S) (m : Modem L S)
      → IsModem m
      → is_some m.ringing ≡ true
      → register m.settings 1 + 1 < auto_answer_rings m.settings
      → (is_some (ring_now ops w m).ringing ≡ true)
        × (auto_answer_rings (ring_now ops w m).settings ≡ auto_answer_rings m.settings)
        × (register (ring_now ops w m).settings 1 ≡ register m.settings 1 + 1)
  unfolding ring_now
  ring_now-rings_on w m h e lt =
      let byte = get_or-byte m.settings.registers 0 h.settings.bytes in
      let (a, b, c) =
        ring_once-rings_on ops w m.ringing m e (ground (arith, lt, byte)) h.settings.registers in
      (a, b, c ∙ omega (arith, lt, byte))

  ring_all-rings_on :
      (ws : List (World C S)) (m : Modem L S)
      → IsModem m
      → is_some m.ringing ≡ true
      → register m.settings 1 + length ws < auto_answer_rings m.settings
      → IsModem (ring_all ws m)
        × (is_some (ring_all ws m).ringing ≡ true)
        × (auto_answer_rings (ring_all ws m).settings ≡ auto_answer_rings m.settings)
        × (register (ring_all ws m).settings 1 ≡ register m.settings 1 + length ws)
  ring_all-rings_on [] m h e lt = (h, e, refl, omega arith)
  ring_all-rings_on (w ∷ ws) m h e lt =
      let (a, b, c) = ring_now-rings_on w m h e (omega arith) in
      let (h', a', b', c') =
        ring_all-rings_on ws (ring_now ops w m) (ring_now-IsModem ops w m h) a
          (omega (arith, b, c, lt)) in
      (h', a', b' ∙ b, c' ∙ omega (arith, c))

  -- When the modem rings, register 0 asks for more rings than register 1 has counted, and the transport
  -- answers with a call, then before the ring that makes the count register 0 the modem rings on, has no
  -- line and has counted every ring, and at that ring it takes the call: nothing rings any more, the call has
  -- a line in the answerer's role under the settings, and it is to connect within the wait for a carrier.
  pub ring_all-answers :
      (ws : List (World C S)) (w : World C S) (call : C) (m : Modem L S)
      → IsModem m
      → is_some m.ringing ≡ true
      → register m.settings 1 + length ws + 1 ≡ auto_answer_rings m.settings
      → w.answered ≡ some call
      → (is_some (ring_all ws m).ringing ≡ true)
        × (is_some (ring_all ws m).line ≡ false)
        × (register (ring_all ws m).settings 1 ≡ register m.settings 1 + length ws)
        × Takes ops w call (ring_all ws m) (ring_now ops w (ring_all ws m))
  unfolding ring_now
  ring_all-answers ws w call m h e last g =
      let (h', a, b, c) = ring_all-rings_on ws m h e (omega arith) in
      let byte = get_or-byte m.settings.registers 0 h.settings.bytes in
      (
        a,
        ground (arith, h'.agrees, a),
        c,
        ring_once-Takes ops w (ring_all ws m).ringing call (ring_all ws m) a
            (ground (arith, b, c, last, byte)) g,
      )
