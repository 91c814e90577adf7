-- ===== src/Tests/Session.antt =====
-- tot/src/main.rs, `session_leg`, on a session in which a reply arrives.
use axiom_carriers.Base.{
  Bool, true, false, none, some, List, [], ◌∷◌, ◌++◌, ◌≡◌, refl, ◌⊎◌, inr, All, arith,
}
use axiom_carriers.Base.Text.{Text, codes, same}
use axiom_carriers.Base.Result.{err}
use axiom_carriers.Disk.{Bytes, Disk}
use axiom_carriers.Tot.Maildir.{Inbox, Moment, inbox_at}
use axiom_carriers.Tot.RateLimiter.{RateLimiter}
use axiom_carriers.Tot.Intake.{close}
use axiom_carriers.Tot.Session.{
  Session, no_directory, Event, from_client, tick, deposited, sorted, replies_in, pump_replies,
  session_leg,
}
use axiom_carriers.Tot.Session.Genuine.{Holds}
use axiom_carriers.Tot.Session.Faithful.{IsApart}
use axiom_carriers.Tot.Session.Cleared.{dir_of, Over, session_leg-Over}
use axiom_carriers.Tests.{empty_disk}

abbrev outbox : Text
outbox = codes "/run/tot"

abbrev entropy : Bytes
entropy = 1 ∷ 2 ∷ []

-- Two replies out of order, a file of the operator, and a temporary one.
abbrev full : Session
full = record {
  disk = record empty_disk {
    files =
        (codes "/run/tot/0102/r2.cbor", 8 ∷ [])
        ∷ (codes "/run/tot/0102/r1.cbor", 7 ∷ [])
        ∷ (codes "/run/tot/0102/notes", 6 ∷ [])
        ∷ (codes "/run/tot/0102/tmp/r3.cbor", 5 ∷ [])
        ∷ [];
  };
  sent = [];
  sends = [];
}

full_replies :
    sorted (replies_in (codes "/run/tot/0102") full.disk.files)
    ≡ codes "/run/tot/0102/r1.cbor" ∷ codes "/run/tot/0102/r2.cbor" ∷ []
unfolding sorted replies_in
full_replies = refl

full_sent : (pump_replies (codes "/run/tot/0102") full).1.sent ≡ (7 ∷ []) ∷ (8 ∷ []) ∷ []
unfolding pump_replies axiom_carriers.Tot.Session.◌>>=◌ axiom_carriers.Tot.Session.send_files
    axiom_carriers.Disk.later_turns axiom_carriers.Disk.remove_file axiom_carriers.Disk.erase
full_sent = refl

abbrev moment : Moment
moment = record { secs = 5; nanos = 6; seq = 7; pid = 8 }

abbrev inbox : Inbox
inbox = inbox_at (codes "/var/inbox")

abbrev events : List Event
events =
    deposited (codes "r1.cbor") (7 ∷ [])
    ∷ tick
    ∷ from_client (record { message = close; now = 5; moment = moment })
    ∷ []

abbrev limiter : RateLimiter
limiter = record { max_per_sec = 8; window_start = 0; count = 0 }

abbrev fresh : Session
fresh = record { disk = empty_disk; sent = []; sends = [] }

abbrev IsReplyOne : Bytes → Type 0
IsReplyOne b = b ≡ 7 ∷ []

events-IsApart : All (IsApart inbox (dir_of IsReplyOne inbox 9 entropy outbox)) events
unfolding axiom_carriers.Tot.Session.is_reply axiom_carriers.Disk.join
    axiom_carriers.Antie.UncleSink.hex axiom_carriers.Tot.Maildir.unique_name
    axiom_carriers.Base.Decimal.print
events-IsApart = (tt, (tt, ((refl, refl), tt)))

none_yet : Holds IsReplyOne (dir_of IsReplyOne inbox 9 entropy outbox) fresh.disk.files
unfolding axiom_carriers.Disk.lookup
none_yet p b is e = absurd (ground (arith, e))

session_leg-Over_example :
    let r = session_leg inbox 9 (some entropy) (some outbox) events limiter fresh in
    ((r.0 ≡ err no_directory) × (r.1.sent ≡ []))
    ⊎ Over IsReplyOne inbox 9 entropy outbox events limiter fresh r
session_leg-Over_example =
    session_leg-Over IsReplyOne inbox 9 entropy outbox events limiter fresh events-IsApart
      (refl, (tt, (tt, tt))) none_yet

-- The reply is sent, and nothing is left of the session.
session_done :
    (session_leg inbox 9 (some entropy) (some outbox) events limiter fresh).1.sent ≡ (7 ∷ []) ∷ []
unfolding session_leg axiom_carriers.Antie.Custody.deposit axiom_carriers.Base.Text.contains
    axiom_carriers.Disk.later_turns axiom_carriers.Disk.create axiom_carriers.Disk.write_all
    axiom_carriers.Disk.rename axiom_carriers.Disk.lookup axiom_carriers.Disk.insert
    axiom_carriers.Tot.Session.send_files axiom_carriers.Disk.erase
session_done = refl

session_gone :
    (session_leg inbox 9 (some entropy) (some outbox) events limiter fresh).1.disk.files ≡ []
unfolding session_leg axiom_carriers.Antie.Custody.deposit axiom_carriers.Base.Text.contains
    axiom_carriers.Disk.later_turns axiom_carriers.Disk.create axiom_carriers.Disk.write_all
    axiom_carriers.Disk.rename axiom_carriers.Disk.lookup axiom_carriers.Disk.insert
    axiom_carriers.Tot.Session.send_files axiom_carriers.Disk.erase axiom_carriers.Disk.remove_file
session_gone = refl
