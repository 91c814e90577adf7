-- ===== src/Tot/Intake.antt =====
-- tot/src/main.rs: the two ways in. A connection is the bytes that its client sends.
pub mod Verbatim
use axiom_carriers.Base.{
  ℕ, ◌+◌, ◌*◌, ◌/◌, ◌%◌, ◌^◌, ltb, ◌==◌, Bool, true, false, if◌then◌else◌, Option, none, some, List,
  [], ◌∷◌, ◌++◌, length, take, drop,
}
use axiom_carriers.Base.Text.{Text, codes, same}
use axiom_carriers.Base.Result.{Result, ok, err}
use axiom_carriers.Disk.{Bytes, Disk, IoError}
use axiom_carriers.Tot.Maildir.{Inbox, Moment, deliver}
use axiom_carriers.Tot.RateLimiter.{RateLimiter, allow}
use axiom_carriers.Tot.Stamp.{stamp_session}
use axiom_carriers.Tot.Stream.{PrefixedStream}

-- What ends a leg.
pub data TotError : Type 0 where
  read_head zero_length over_cap read_body no_header_block rate_exceeded receive deliver_failed :
      TotError

-- The WebSocket side gets its first four bytes back.
pub data Leg : Type 0 where
  websocket : PrefixedStream → Leg
  tcp_intake : Bytes → Bytes → Leg

-- `read_exact` of four bytes.
unfoldable pub demux : Bytes → Result TotError Leg
demux sent =
    let head = take 4 sent in
    if ltb (length sent) 4
    then err read_head
    else if same head (codes "GET ")
    then ok (websocket (record { prefix = head; pos = 0; inner = drop 4 sent }))
    else ok (tcp_intake head (drop 4 sent))

-- `u32::from_le_bytes`
unfoldable pub u32_le : Bytes → ℕ
u32_le [] = 0
u32_le (b ∷ bs) = b + 256 * u32_le bs

abbrev pub landed : Result IoError (Unit {0}) × Disk → Result TotError (Unit {0}) × Disk
landed (ok _, d) = (ok tt, d)
landed (err _, d) = (err deliver_failed, d)

unfoldable pub tcp_intake_leg :
    Inbox → ℕ → Bytes → Bytes → Moment → Disk → Result TotError (Unit {0}) × Disk
unfolding u32_le
tcp_intake_leg inbox cap head rest m d =
    let len = u32_le head in
    if len == 0
    then (err zero_length, d)
    else if ltb cap len
    then (err over_cap, d)
    else if ltb (length rest) len
    then (err read_body, d)
    else landed (deliver inbox m (take len rest) d)

-- What the WebSocket yields, and the clocks when it does.
pub data Message : Type 0 where
  binary : Bytes → Message
  close : Message
  other : Message
  broken : Message

pub record Arrival : Type 0 where
  pub message : Message
  pub now : ℕ
  pub moment : Moment

-- What is written for a message: `/intake` writes it as it is, `/session` stamps it.
abbrev pub verbatim : Bytes → Option Bytes
verbatim bytes = some bytes

abbrev pub stamped : Text → Bytes → Option Bytes
stamped id bytes = stamp_session bytes id

module _ (inbox : Inbox) (cap : ℕ) (envelope : Bytes → Option Bytes) where
  abbrev pub written : Option Bytes → Moment → Disk → Result TotError (Unit {0}) × Disk
  written (some bytes) m d = landed (deliver inbox m bytes d)
  written none m d = (err no_header_block, d)

  -- One binary message.
  unfoldable pub submit :
      Bytes → Arrival → RateLimiter → Disk → Result TotError (Unit {0}) × RateLimiter × Disk
  submit bytes a l d =
      let (l', allowed) = allow l a.now in
      let (r, d') = written (envelope bytes) a.moment d in
      if ltb cap (length bytes)
      then (err over_cap, l, d)
      else if allowed
      then (r, l', d')
      else (err rate_exceeded, l', d)

  -- The first error ends the leg, and so does a close.
  unfoldable pub websocket_leg :
      List Arrival → RateLimiter → Disk → Result TotError (Unit {0}) × Disk
  unfolding submit
  websocket_leg [] l d = (ok tt, d)
  websocket_leg (a ∷ later) l d = elim a.message [
    | binary bytes ↦
        let r = submit bytes a l d in
        let rest = websocket_leg later r.1 r.2 in elim r.0 [ ok _ ↦ rest | err e ↦ (err e, r.2) ]
    | close ↦ (ok tt, d)
    | other ↦ websocket_leg later l d
    | broken ↦ (err receive, d)
  ]
