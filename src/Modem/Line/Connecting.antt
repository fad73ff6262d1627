-- ===== src/Modem/Line/Connecting.antt =====
-- About what the handshake of softmodem/src/line.rs reports.
use softmodem_rs.Prelude.{
  ℕ, ◌≡◌, refl, ◌∙◌, subst, Bool, true, false, not, ◌&&◌, ◌||◌, if◌then◌else◌, if_cases, Option,
  none, some, List, [], ◌∷◌, arith,
}
use softmodem_rs.Link.State.{Link, status}
use softmodem_rs.Modem.Line.{Signals, Handshake, is_empty, nothing, carries, is_originate}
use softmodem_rs.Modem.Line.Receiving.{
  hear, recover, recover_on, deliver, received_by, listen, receive_handshake,
}
use softmodem_rs.Modem.Session.{Received}

-- What was reported, from whether the call was connected before: a connection at most once, and bytes
-- with it or after it only.
record Reports {P T D : Type 0} (before : Bool) (x : Handshake P T D × Received) : Type 0 where
  stays : x.0.connected ≡ (before || x.1.connected)
  once : (before && x.1.connected) ≡ false
  after : x.0.connected ≡ false → x.1.bytes ≡ []

abbrev no_bytes : List ℕ → Bool
no_bytes [] = true
no_bytes (b ∷ bytes) = false

-- No connection is reported twice, and no byte before one, from whether the call is connected.
abbrev pub orderly : Bool → List Received → Bool
orderly connected [] = true
orderly connected (r ∷ reports) =
    not (connected && r.connected)
    && (connected || r.connected || no_bytes r.bytes)
    && orderly (connected || r.connected) reports

module _ {P T D G S : Type 0} (s : Signals P T D G S) where
  quiet-Reports : (h : Handshake P T D) → Reports h.connected (h, nothing)
  quiet-Reports h = record { stays = ground arith; once = ground arith; after = λ _. refl }

  deliver-Reports : (o : Option Link) (h : Handshake P T D) → Reports h.connected (deliver s o h)
  deliver-Reports none h = quiet-Reports h
  deliver-Reports (some l) h =
      if_cases (Reports h.connected) h.connected _ _
        (λ on. record {
          stays = ground (arith, on);
          once = ground (arith, on);
          after = λ off. ground (arith, on, off);
        })
        (λ off.
          if_cases (Reports h.connected) (carries (status l)) _ _
            (λ _. record {
              stays = ground (arith, off);
              once = ground (arith, off);
              after = λ not_on. ground (arith, not_on);
            })
            (λ _. quiet-Reports h))

  recover_on-connected :
      (now : ℕ) (connected : Bool) (o : Option Link) (h : Handshake P T D)
      → (recover_on s now connected o h).connected ≡ h.connected
  recover_on-connected now connected none h = refl
  recover_on-connected now connected (some l) h = refl

  recover-connected :
      (now : ℕ) (connected : Bool) (h : Handshake P T D)
      → (recover s now connected h).connected ≡ h.connected
  unfolding recover
  recover-connected now connected h = recover_on-connected now connected h.link h

  hear-connected :
      (now : ℕ) (bits : List Bool) (h : Handshake P T D)
      → (hear s now bits h).connected ≡ h.connected
  hear-connected now bits h =
      if_cases (λ (x : Handshake P T D). x.connected ≡ h.connected)
        (not (is_empty bits) || s.connected h.pump) _ h (λ _. refl) (λ _. refl)

  received_by-Reports :
      (now : ℕ) (x : P × List Bool) (h : Handshake P T D)
      → Reports h.connected (received_by s now x h)
  received_by-Reports now (p, bits) h =
      let pumped : Handshake P T D = record h {
        pump = p;
        rate = if s.connected p then s.bit_rate p else h.rate;
      } in
      let heard = hear s now bits pumped in
      let after : Handshake P T D =
        recover s now (s.connected p)
          (record heard { heard_carrier = heard.heard_carrier || s.carrier p }) in
      subst (λ b. Reports b (deliver s after.link after))
        (recover-connected now (s.connected p) _ ∙ hear-connected now bits pumped)
        (deliver-Reports after.link after)

  listen-Reports :
      (now : ℕ) (samples : S) (x : D × Bool) (h : Handshake P T D)
      → Reports h.connected (listen s now samples x h)
  listen-Reports now samples (d, true) h = record {
    stays = ground arith;
    once = ground arith;
    after = λ _. refl;
  }
  listen-Reports now samples (d, false) h =
      received_by-Reports now (s.receive h.pump samples) (record h { answer_tone_detector = d })

  receive-Reports :
      (now : ℕ) (samples : S) (h : Handshake P T D)
      → Reports h.connected (receive_handshake s now samples h)
  unfolding receive_handshake
  receive-Reports now samples h =
      if_cases (Reports h.connected)
        (is_originate h.role && not h.heard_carrier && not (s.sends_own_answer_tone h.pump)) _ _
        (λ _. listen-Reports now samples (s.process h.answer_tone_detector samples) h)
        (λ _. received_by-Reports now (s.receive h.pump samples) h)

  -- The handshake over frames of samples, each with its time, and what it reports of each.
  abbrev pub receive_all : List (ℕ × S) → Handshake P T D → Handshake P T D × List Received
  receive_all [] h = (h, [])
  receive_all ((now, samples) ∷ frames) h =
      let (h', r) = receive_handshake s now samples h in
      let (h'', reports) = receive_all frames h' in (h'', r ∷ reports)

  -- Whatever the pump and the link make of the samples, from a handshake, connected or not, no connection is
  -- reported twice, none on a connected call, and no byte before one.
  pub receive_all-orderly :
      (frames : List (ℕ × S)) (h : Handshake P T D)
      → orderly h.connected (receive_all frames h).1 ≡ true
  receive_all-orderly [] h = refl
  receive_all-orderly ((now, samples) ∷ frames) h =
      let (h', r) = receive_handshake s now samples h in
      let one = receive-Reports now samples h in
      let rest = receive_all-orderly frames h' in
      ground (arith, one.stays, one.once, one.after, rest)
