-- ===== src/Modem/Line/Interface.antt =====
-- `Line` of softmodem/src/line.rs, and how it is the line that the modem asks for. The modem's
-- instants are in milliseconds.
use softmodem_rs.Prelude.{ℕ, ◌*◌, Bool, true, false, not, if◌then◌else◌, Option, none, some, List}
use softmodem_rs.Lapm.State.{Role}
use softmodem_rs.Link.State.{Link, Status, status}
use softmodem_rs.Link.Send
use softmodem_rs.Modem.{Header}
use softmodem_rs.Modem.Line.{
  Signals, Handshake, CallLine, new_handshake, fill, transmit_handshake, nothing,
}
use softmodem_rs.Modem.Line.Receiving.{receive_handshake}
use softmodem_rs.Modem.Session.{Received, LineOps}

abbrev pub is_released : Status → Bool
is_released Status.released = true
is_released _ = false

abbrev pub is_some : {A : Type 0} → Option A → Bool
is_some none = false
is_some (some a) = true

abbrev pub link_of : {P T D : Type 0} → Option (Handshake P T D) → Option Link
link_of none = none
link_of (some h) = h.link

abbrev pub is_link_released : Option Link → Bool
is_link_released none = false
is_link_released (some l) = is_released (status l)

module _ {P T D G : Type 0} where
  abbrev pub has_handshake : CallLine P T D G → Bool
  has_handshake l = is_some l.handshake

  unfoldable pub released : CallLine P T D G → Bool
  unfolding status
  released l = is_link_released (link_of l.handshake)

module _ {P T D G S : Type 0} (s : Signals P T D G S) where
  abbrev pub handshake_for : Header → Option Role → Option (Handshake P T D)
  handshake_for header none = none
  handshake_for header (some role) = some (new_handshake s header.offer header.setups role)

  -- `Line::new`
  unfoldable pub new : Header → Option (List ℕ × ℕ) → CallLine P T D G
  unfolding new_handshake
  new header none = record {
    offer = header.offer;
    setups = header.setups;
    handshake = handshake_for header header.role;
    digits = none;
  }
  new header (some (digits, pause)) = record {
    offer = header.offer;
    setups = header.setups;
    handshake = none;
    digits = some (s.digits digits pause, header.role);
  }

  unfoldable pub start : CallLine P T D G → Role → CallLine P T D G
  unfolding new_handshake
  start l role = record l { handshake = some (new_handshake s l.offer l.setups role) }

  -- An operation of the pump, if there is a handshake.
  abbrev pub with_pump : (P → P) → Option (Handshake P T D) → Option (Handshake P T D)
  with_pump f none = none
  with_pump f (some h) = some (record h { pump = f h.pump })

  unfoldable pub retrain : CallLine P T D G → CallLine P T D G
  retrain l = record l { handshake = with_pump s.retrain l.handshake }

  abbrev pub asks_pump : (P → Bool) → Option (Handshake P T D) → Bool
  asks_pump test none = false
  asks_pump test (some h) = test h.pump

  unfoldable pub clear_down : CallLine P T D G → CallLine P T D G × Bool
  clear_down l =
      let cleared : CallLine P T D G = record l {
        handshake = with_pump s.clear_down l.handshake;
      } in
      if asks_pump s.connected l.handshake
      then (cleared, not (asks_pump s.connected cleared.handshake))
      else (l, false)

  abbrev pub cleared : CallLine P T D G → Bool
  cleared l = asks_pump s.cleared l.handshake

  abbrev pub carrier : CallLine P T D G → Bool
  carrier l = asks_pump s.carrier l.handshake

  abbrev pub rate_of : (P → ℕ) → Option (Handshake P T D) → Option ℕ
  rate_of rate none = none
  rate_of rate (some h) = some (rate h.pump)

  abbrev pub send_by : List ℕ → ℕ → Handshake P T D → Option Link → Handshake P T D
  send_by bytes now h none = h
  send_by bytes now h (some k) = fill s now (record h { link = some (Send.send k bytes) })

  abbrev pub send_on : List ℕ → ℕ → Option (Handshake P T D) → Option (Handshake P T D)
  send_on bytes now none = none
  send_on bytes now (some h) = some (send_by bytes now h h.link)

  unfoldable pub send : CallLine P T D G → List ℕ → ℕ → CallLine P T D G
  unfolding fill Send.send
  send l bytes now = record l { handshake = send_on bytes now l.handshake }

  abbrev pub start_if : Option Role → CallLine P T D G → CallLine P T D G
  start_if none l = l
  start_if (some role) l = start l role

  abbrev pub send_digits : Option Role → G × S → CallLine P T D G → CallLine P T D G × S
  send_digits role (g, samples) l =
      if s.digits_done g
      then (start_if role (record l { digits = none }), samples)
      else (record l { digits = some (g, role) }, samples)

  abbrev pub send_signal : ℕ → Option (Handshake P T D) → CallLine P T D G → CallLine P T D G × S
  send_signal now none l = (l, s.silence)
  send_signal now (some h) l =
      let (h', samples) = transmit_handshake s (fill s now h) in
      (record l { handshake = some h' }, samples)

  abbrev pub transmit_by : ℕ → Option (G × Option Role) → CallLine P T D G → CallLine P T D G × S
  transmit_by now none l = send_signal now l.handshake l
  transmit_by now (some (g, role)) l = send_digits role (s.render_digits g) l

  unfoldable pub transmit : CallLine P T D G → ℕ → CallLine P T D G × S
  unfolding start fill transmit_handshake
  transmit l now = transmit_by now l.digits l

  abbrev pub receive_on :
      ℕ → S → Option (Handshake P T D) → CallLine P T D G → CallLine P T D G × Received
  receive_on now samples none l = (l, nothing)
  receive_on now samples (some h) l =
      let (h', received) = receive_handshake s now samples h in
      (record l { handshake = some h' }, received)

  unfoldable pub receive : CallLine P T D G → S → ℕ → CallLine P T D G × Received
  unfolding receive_handshake
  receive l samples now = receive_on now samples l.handshake l

  abbrev nanoseconds : ℕ → ℕ
  nanoseconds ms = ms * 1_000_000

  -- The line that the modem asks for; the call itself carries the frames only.
  unfoldable pub line_ops : {C : Type 0} → LineOps (CallLine P T D G) C S
  line_ops = record {
    new_line = λ call header digits. new header digits;
    start = λ l role now. start l role;
    retrain = λ l now. retrain l;
    clear_down = λ l now. clear_down l;
    cleared = cleared;
    released = released;
    carrier = carrier;
    has_handshake = has_handshake;
    bit_rate = λ l. rate_of s.bit_rate l.handshake;
    transmit_rate = λ l. rate_of s.transmit_rate l.handshake;
    send = λ l bytes now. send l bytes (nanoseconds now);
    transmit = λ l now. transmit l (nanoseconds now);
    dropped = λ l now. l;
    receive = λ l samples now. receive l samples (nanoseconds now);
  }
