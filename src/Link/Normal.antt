-- ===== src/Link/Normal.antt =====
-- A link of lib.rs without error correction carries the DTE's characters as they are.
use softmodem_rs.Prelude.{
  ℕ, zero, suc, ◌≤◌, ◌<◌, ◌≡◌, refl, ap, ap₂, sym, ◌∙◌, Bool, true, false, Option, none, some, List,
  [], ◌∷◌, ◌++◌, append-nil, append_assoc, All, length, take, drop, min, take_prefix, drop_prefix,
  arith,
}
use softmodem_rs.Uart.{Decoder, idle}
use softmodem_rs.Uart
use softmodem_rs.Uart.RoundTrip.{Sent, at, line, characters, allowed, IsSent, push_all-line}
use softmodem_rs.Link.State.{Phase, Link, expire_by, expire}
use softmodem_rs.Link.Codec.{set_up_codec_by, set_up_codec}
use softmodem_rs.Link.Send.{frames, send_by, send, turn, fill, transmit}
use softmodem_rs.Link.Receive.{hear_normal, hear, hear_all, deliver_by, deliver_lapm, receive}

abbrev whole : List ℕ → List Sent
whole [] = []
whole (b ∷ bytes) = (b, false) ∷ whole bytes

frames-line : (bytes : List ℕ) → frames bytes ≡ line (whole bytes)
unfolding line
frames-line [] = refl
frames-line (b ∷ bytes) = ap (λ l. Uart.frame b ++ l) (frames-line bytes)

characters-whole : (bytes : List ℕ) → characters (whole bytes) ≡ bytes
unfolding characters
characters-whole [] = refl
characters-whole (b ∷ bytes) = ap (λ l. b ∷ l) (characters-whole bytes)

allowed-whole : (v14 : Bool) (bytes : List ℕ) → allowed v14 false (whole bytes) ≡ true
unfolding allowed
allowed-whole v14 [] = refl
allowed-whole v14 (b ∷ bytes) = allowed-whole v14 bytes

All-whole : (bytes : List ℕ) → All (λ b. b < 256) bytes → All IsSent (whole bytes)
All-whole [] h = tt
All-whole (b ∷ bytes) (h, hs) = (h, All-whole bytes hs)

-- A link that carries plain characters.
abbrev pub plain : Link → Link
plain l = record l { phase = Phase.normal }

abbrev heard_by : Link → Decoder × List ℕ → Link
heard_by l (d, bytes) = record l { decoder = d; received = l.received ++ bytes }

heard_by-first :
    (l : Link) (first : Decoder × Option ℕ) (rest : Decoder × List ℕ)
    → heard_by (hear_normal (plain l) first) rest ≡ heard_by (plain l) (Uart.gather first.1 rest)
heard_by-first l (d, none) rest = refl
heard_by-first l (d, some byte) (d', bytes) =
    ap (λ r. record (plain l) { decoder = d'; received = r })
      (append_assoc l.received (byte ∷ []) bytes)

hear_all-heard :
    (l : Link) (first : Decoder × Option ℕ) (bits : List Bool) (now : ℕ)
    → ((l' : Link)
        → hear_all (plain l') bits now ≡ heard_by (plain l') (Uart.push_all l'.decoder bits))
    → hear_all (hear_normal (plain l) first) bits now
      ≡ heard_by (plain l) (Uart.gather first.1 (Uart.push_all first.0 bits))
hear_all-heard l (d, none) bits now ih = ih (record l { decoder = d })
hear_all-heard l (d, some byte) bits now ih =
    ih (record l { decoder = d; received = l.received ++ byte ∷ [] })
    ∙ heard_by-first l (d, some byte) (Uart.push_all d bits)

hear_all-plain :
    (l : Link) (bits : List Bool) (now : ℕ)
    → hear_all (plain l) bits now ≡ heard_by (plain l) (Uart.push_all l.decoder bits)
unfolding hear_all hear Uart.push_all
hear_all-plain l [] now = ap (λ r. record (plain l) { received = r }) (sym (append-nil l.received))
hear_all-plain l (bit ∷ bits) now =
    hear_all-heard l (Uart.push l.decoder bit) bits now (λ l'. hear_all-plain l' bits now)

-- The bits of characters, as an idle decoder without framing errors hears them.
hear_all-frames :
    (l : Link) (bytes : List ℕ) (errors : ℕ) (v14 : Bool) (now : ℕ)
    → l.decoder ≡ at errors v14 false idle
    → All (λ b. b < 256) bytes
    → hear_all (plain l) (frames bytes) now ≡ record (plain l) { received = l.received ++ bytes }
hear_all-frames l bytes errors v14 now d h =
    let heard : Uart.push_all l.decoder (frames bytes) ≡ (l.decoder, bytes) =
      ap₂ Uart.push_all d (frames-line bytes)
      ∙ push_all-line errors v14 (whole bytes) (allowed-whole v14 bytes) (All-whole bytes h)
      ∙ ap₂ (λ (x : Decoder) (y : List ℕ). (x, y)) (sym d) (characters-whole bytes) in
    hear_all-plain l (frames bytes) now ∙ ap (heard_by (plain l)) heard

fill-plain : (fuel : ℕ) (l : Link) (max' now : ℕ) → fill fuel (plain l) max' now ≡ plain l
fill-plain zero l max' now = unfold fill in refl
fill-plain (suc fuel) l max' now = unfold fill turn in ground arith

abbrev shift : ℕ → Link → Link × List Bool
shift n l = (record l { tx = drop n l.tx }, take n l.tx)

shift-length : (l : Link) → shift (length l.tx) l ≡ (record l { tx = [] }, l.tx)
shift-length l =
    let whole_queue : l.tx ++ [] ≡ l.tx = append-nil l.tx in
    ap₂ (λ (rest taken : List Bool). (record l { tx = rest }, taken))
      (ap (drop (length l.tx)) (sym whole_queue) ∙ drop_prefix (length l.tx) l.tx [] refl)
      (ap (take (length l.tx)) (sym whole_queue) ∙ take_prefix (length l.tx) l.tx [] refl)

transmit-plain :
    (l : Link) (max' now : ℕ)
    → length l.tx ≤ max'
    → transmit (plain l) max' now ≡ (record (plain l) { tx = [] }, l.tx)
unfolding transmit expire expire_by
transmit-plain l max' now h =
    let all_fit : min max' (length l.tx) ≡ length l.tx = omega arith in
    ap (λ l'. shift (min max' (length l'.tx)) l') (fill-plain max' l max' now)
    ∙ ap (λ n. shift n (plain l)) all_fit
    ∙ shift-length (plain l)

receive-plain :
    (l m : Link) (bits : List Bool) (now : ℕ)
    → hear_all (plain l) bits now ≡ plain m
    → receive (plain l) bits now ≡ plain m
unfolding receive expire expire_by deliver_lapm deliver_by set_up_codec set_up_codec_by
receive-plain l m bits now e = ap (λ l'. expire (deliver_lapm (set_up_codec l')) now) e

plain-phase : (l : Link) → l.phase ≡ Phase.normal → l ≡ plain l
plain-phase l p = ap (λ x. record l { phase = x }) p

send-plain :
    (a : Link) (bytes : List ℕ)
    → a.tx ≡ []
    → send (plain a) bytes ≡ plain (record a { tx = frames bytes })
unfolding send send_by set_up_codec set_up_codec_by
send-plain a bytes t = ap (λ tx. record (plain a) { tx = tx ++ frames bytes }) t

-- The bits of characters go to the pump as they are, and the queue is empty again.
transmit-send :
    (a : Link) (bytes : List ℕ) (max' now : ℕ)
    → a.phase ≡ Phase.normal
    → a.tx ≡ []
    → length (frames bytes) ≤ max'
    → transmit (send a bytes) max' now ≡ (a, frames bytes)
transmit-send a bytes max' now p t fits =
    ap (λ l. transmit (send l bytes) max' now) (plain-phase a p)
    ∙ ap (λ l. transmit l max' now) (send-plain a bytes t)
    ∙ transmit-plain (record a { tx = frames bytes }) max' now fits
    ∙ ap₂ (λ (x : Phase) (tx : List Bool). (record a { phase = x; tx = tx }, frames bytes)) (sym p)
        (sym t)

receive-frames :
    (b : Link) (bytes : List ℕ) (errors : ℕ) (v14 : Bool) (now : ℕ)
    → b.phase ≡ Phase.normal
    → b.decoder ≡ at errors v14 false idle
    → All (λ byte. byte < 256) bytes
    → receive b (frames bytes) now ≡ record b { received = b.received ++ bytes }
receive-frames b bytes errors v14 now p d h =
    ap (λ l. receive l (frames bytes) now) (plain-phase b p)
    ∙ receive-plain b (record b { received = b.received ++ bytes }) (frames bytes) now
        (hear_all-frames b bytes errors v14 now d h)
    ∙ sym (plain-phase (record b { received = b.received ++ bytes }) p)

-- Of two links that carry plain characters (phase `normal`), let the sender's queue be empty, the
-- receiver's start-stop decoder idle and between characters, and let the DTE of the sender send bytes
-- below 256. If the pump takes at least the bits of their frames, one `transmit` after `send` gives
-- the pump bits, and these handed to `receive` append just these bytes to what the receiver has for
-- its DTE. Both links are otherwise as they were, at any instants of the calls.
pub receive-transmit :
    (a b : Link) (bytes : List ℕ) (errors : ℕ) (v14 : Bool) (max' now later : ℕ)
    → a.phase ≡ Phase.normal
    → b.phase ≡ Phase.normal
    → a.tx ≡ []
    → b.decoder ≡ at errors v14 false idle
    → All (λ byte. byte < 256) bytes
    → length (frames bytes) ≤ max'
    → ((transmit (send a bytes) max' now).0 ≡ a)
      × (receive b (transmit (send a bytes) max' now).1 later
          ≡ record b { received = b.received ++ bytes })
receive-transmit a b bytes errors v14 max' now later pa pb t d h fits =
    let sent = transmit-send a bytes max' now pa t fits in
    (
      ap (λ r. r.0) sent,
      ap (λ r. receive b r.1 later) sent ∙ receive-frames b bytes errors v14 later pb d h,
    )
