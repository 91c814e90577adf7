-- ===== src/Antie/Response.antt =====
-- antie/src/gateway.rs, `send_response`: a reply goes to the mailbox it came from, or to the session
-- that holds the request.
pub mod Custody
pub mod Counted
use axiom_carriers.Base.{◌+◌, Bool, ◌&&◌, if◌then◌else◌, Option, none, some, List, [], ◌∷◌, ◌++◌}
use axiom_carriers.Base.Text.{Text, codes, same_ignore_case}
use axiom_carriers.Base.Result.{Result, ok, err}
use axiom_carriers.Disk.{Bytes, Disk, join}
use axiom_carriers.Antie.Custody.{deposit}
use axiom_carriers.Antie.UncleSink.{tee}
use axiom_carriers.Antie.Node.{
  AntieError, invalid_payload, maildir_error, Stats, bump, Node, Act, send,
}

-- antie/src/email.rs: what the handlers read of a parsed message.
pub record AntieEmail : Type 0 where
  pub from : Text
  pub message_type : Text
  pub request_id : Text
  pub raw_ump_body : Bytes
  pub uncle_correlate : Option Bytes
  pub custody : Option (Text × Text)

-- `body` stands for the fields that no handler of the gateway looks at.
pub record ResponsePayload : Type 0 where
  pub success : Bool
  pub request_id : Text
  pub rejection_code : Option Text
  pub body : Bytes

-- antie/src/config.rs
pub record CustodyRoute : Type 0 where
  pub header : Text
  pub outbox : Text
  pub suppress_email : Bool

-- `sink` is UNCLE's outbox with the stamp of the temporary name, `is_dev_wallet` Core's, and
-- `build_response` the encoder of the mail.
pub record Replies : Type 0 where
  pub sink : Option (Text × Text)
  pub routes : List CustodyRoute
  pub is_dev_wallet : Text → Bool
  pub build_response : AntieEmail → ResponsePayload → Result AntieError Bytes

unfoldable pub find_row : Text → List CustodyRoute → Option CustodyRoute
find_row hdr [] = none
find_row hdr (r ∷ rs) = if same_ignore_case r.header hdr then some r else find_row hdr rs

abbrev pub session_header : Text
session_header = codes "X-TOT-Session"

abbrev pub reply_name : ResponsePayload → Text
reply_name payload = payload.request_id ++ codes ".cbor"

unfoldable pub tee_copy : Option (Text × Text) → Option Bytes → Bytes → Disk → Disk
tee_copy (some (outbox, stamp)) (some correlate) bytes d = (tee outbox correlate stamp bytes d).1
tee_copy (some _) none bytes d = d
tee_copy none _ bytes d = d

-- The counters after a reply that was mailed.
abbrev mailed : Result AntieError (Unit {0}) → Node → Result AntieError (Unit {0}) × Node
mailed (ok _) n = (
  ok tt,
  record n {
    stats = record n.stats {
      emails_sent = bump n.stats.emails_sent;
      rounds_served = n.stats.rounds_served + 1;
    };
  },
)
mailed (err e) n = (err e, n)

unfoldable pub mail : Text → Bytes → Act (Unit {0})
mail to bytes n = let r = send to bytes n in mailed r.0 r.1

abbrev suppressed :
    CustodyRoute → Result AntieError (Unit {0}) → AntieEmail → Bytes → Act (Unit {0})
suppressed row result email bytes n =
    if row.suppress_email then (result, n) else mail email.from bytes n

abbrev pub by_row :
    Option CustodyRoute → Text → AntieEmail → ResponsePayload → Bytes → Act (Unit {0})
by_row none id email payload bytes n = mail email.from bytes n
by_row (some row) id email payload bytes n =
    let r = deposit (join row.outbox id) (reply_name payload) bytes n.disk in
    let n' = record n { disk = r.1 } in
    elim r.0 [
      | ok _ ↦ suppressed row (ok tt) email bytes n'
      | err _ ↦ suppressed row (err maildir_error) email bytes n'
    ]

module _ (rs : Replies) where
  abbrev pub in_custody :
      Option (Text × Text) → AntieEmail → ResponsePayload → Bytes → Act (Unit {0})
  in_custody none email payload bytes n = mail email.from bytes n
  in_custody (some (hdr, id)) email payload bytes n =
      if same_ignore_case hdr session_header && rs.is_dev_wallet email.from
      then (err invalid_payload, n)
      else by_row (find_row hdr rs.routes) id email payload bytes n

  -- The copy for UNCLE is made first, and its failure does not count.
  abbrev pub routed : AntieEmail → ResponsePayload → Bytes → Act (Unit {0})
  routed email payload bytes n =
      in_custody email.custody email payload bytes
        (record n { disk = tee_copy rs.sink email.uncle_correlate bytes n.disk })

  unfoldable pub send_response : AntieEmail → ResponsePayload → Act (Unit {0})
  send_response email payload n = elim (rs.build_response email payload) [
    | ok bytes ↦ routed email payload bytes n
    | err e ↦ (err e, n)
  ]
