-- ===== src/Tests/Lapm.antt =====
-- lapm.rs at concrete inputs.
use softmodem_rs.Prelude.{ℕ, ◌≡◌, List, [], ◌∷◌, some, none, true, false, arith, refl, get_elem?}
use softmodem_rs.Prelude.Result.{ok}
use softmodem_rs.Frame.{i_format, parse, bytes}
use softmodem_rs.Lapm.State.{Lapm, Role, connected, ahead, cr}
use softmodem_rs.Lapm.Transmit.{next_frame, next_i_frame}
use softmodem_rs.Lapm.Receive.{receive}
use softmodem_rs.Lapm.Invariant.{IsLapm}
use softmodem_rs.Lapm.Invariant.Receiving.{receive-IsLapm}
use softmodem_rs.Lapm.Invariant.Sending.{next_frame-IsLapm}
use softmodem_rs.Lapm.Window.{unacknowledged, next_frame-unacknowledged, parse-next_i_frame}

-- A connected originator with two frames sent, one of them acknowledged before, and data queued.
abbrev busy : Lapm
busy = record {
  role = Role.originate;
  state = connected;
  t401 = 1000;
  timer = some 5000;
  retries = 0;
  n401_tx = 4;
  k_tx = 15;
  vs = 3;
  va = 1;
  vr = 126;
  rb = false;
  sent = (1 ∷ 2 ∷ []) ∷ (3 ∷ 4 ∷ []) ∷ [];
  resent = 0;
  queue = 5 ∷ 6 ∷ 7 ∷ 8 ∷ 9 ∷ [];
  received = [];
  conditions = record { peer_busy = false; reject = false; recovery = false };
  urgent = [];
  owed = record { reject = none; final_rr = false; poll = false; ack = false };
  offer = none;
  compression = none;
}

busy-IsLapm : IsLapm busy
busy-IsLapm = ground arith

-- An I frame from the far end that acknowledges one frame.
abbrev incoming : List ℕ
incoming = 0x01 ∷ 0xfc ∷ 0x04 ∷ 0x41 ∷ []

receive-IsLapm_example : IsLapm (receive busy incoming 2000)
receive-IsLapm_example = receive-IsLapm busy incoming 2000 (omega arith) busy-IsLapm

next_frame-IsLapm_example : IsLapm (next_frame busy 2000).0
next_frame-IsLapm_example = next_frame-IsLapm busy 2000 busy-IsLapm

next_frame-unacknowledged_example :
    unacknowledged (next_frame busy 2000).0 ≡ 1 ∷ 2 ∷ 3 ∷ 4 ∷ 5 ∷ 6 ∷ 7 ∷ 8 ∷ 9 ∷ []
unfolding next_frame
next_frame-unacknowledged_example = next_frame-unacknowledged busy 2000 refl

parse-next_i_frame_example :
    (info : List ℕ) × (get_elem? (next_i_frame busy 2000).0.sent (ahead busy.vs busy.va)
      ≡ some info)
    × (parse (0x03 ∷ 0x06 ∷ 0xfc ∷ 5 ∷ 6 ∷ 7 ∷ 8 ∷ [])
        ≡ ok (record { cr = cr busy true; control = i_format busy.vs busy.vr false; info = info }))
unfolding next_i_frame bytes
parse-next_i_frame_example =
    parse-next_i_frame busy (next_i_frame busy 2000).0 2000
      (0x03 ∷ 0x06 ∷ 0xfc ∷ 5 ∷ 6 ∷ 7 ∷ 8 ∷ []) refl busy-IsLapm refl
