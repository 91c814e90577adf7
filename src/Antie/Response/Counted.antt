-- ===== src/Antie/Response/Counted.antt =====
-- antie/src/gateway.rs, `send_response`: the counter of mails.
use axiom_carriers.Base.{◌+◌, ◌≡◌, arith, length, Option, none, some, ◌⊎◌, inl, inr}
use axiom_carriers.Base.Text.{Text}
use axiom_carriers.Base.Result.{Result-cases}
use axiom_carriers.Disk.{Bytes, join}
use axiom_carriers.Antie.Custody.{deposit}
use axiom_carriers.Antie.Node.{Node, bump}
use axiom_carriers.Antie.Response.{
  AntieEmail, ResponsePayload, CustodyRoute, Replies, find_row, reply_name, tee_copy, by_row,
  in_custody, send_response,
}
use axiom_carriers.Antie.Response.Custody.{mail_lem}

-- No mail and no count, or one of both.
abbrev pub Counts : Node → Node → Type 0
Counts n n' =
    ((length n'.mails ≡ length n.mails) × (n'.stats.emails_sent ≡ n.stats.emails_sent))
    ⊎ ((length n'.mails ≡ length n.mails + 1) × (n'.stats.emails_sent ≡ bump n.stats.emails_sent))

by_row-Counts :
    (o : Option CustodyRoute) (id : Text) (email : AntieEmail) (payload : ResponsePayload)
    (bytes : Bytes) (n : Node)
    → Counts n (by_row o id email payload bytes n).1
by_row-Counts none id email payload bytes n = ground (arith, mail_lem email.from bytes n)
by_row-Counts (some row) id email payload bytes n =
    let r = deposit (join row.outbox id) (reply_name payload) bytes n.disk in
    ground (arith, mail_lem email.from bytes (record n { disk = r.1 }))

in_custody-Counts :
    (rs : Replies) (o : Option (Text × Text)) (email : AntieEmail) (payload : ResponsePayload)
    (bytes : Bytes) (n : Node)
    → Counts n (in_custody rs o email payload bytes n).1
in_custody-Counts rs none email payload bytes n = ground (arith, mail_lem email.from bytes n)
in_custody-Counts rs (some (hdr, id)) email payload bytes n =
    ground (arith, by_row-Counts (find_row hdr rs.routes) id email payload bytes n)

-- `emails_sent` counts the mails that the sender took, whichever way the reply goes: a reply that is
-- deposited instead, refused or not taken is not counted.
send_response-Counts :
    (rs : Replies) (email : AntieEmail) (payload : ResponsePayload) (n : Node)
    → Counts n (send_response rs email payload n).1
unfolding send_response
send_response-Counts rs email payload n = elim (Result-cases (rs.build_response email payload)) [
  | inl (bytes, built) ↦
      let d = tee_copy rs.sink email.uncle_correlate bytes n.disk in
      ground (
        arith,
        built,
        in_custody-Counts rs email.custody email payload bytes (record n { disk = d }),
      )
  | inr (e, failed) ↦ ground (arith, failed)
]
