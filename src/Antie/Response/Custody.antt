-- ===== src/Antie/Response/Custody.antt =====
-- antie/src/gateway.rs, `send_response`: where a reply is when it counts as sent.
use axiom_carriers.Base.{
  true, ◌&&◌, Option, none, some, ◌∷◌, ◌≡◌, refl, arith, ◌⊎◌, inl, inr, Bool-cases,
}
use axiom_carriers.Base.Text.{Text, same_ignore_case}
use axiom_carriers.Base.Result.{ok, err}
use axiom_carriers.Disk.{Bytes, Disk, lookup, call, create, write_all, rename, join}
use axiom_carriers.Disk.Holds.{AfterOk, call-files, write_all-AfterOk, rename-AfterOk}
use axiom_carriers.Antie.Custody.{tmp_path, deposit}
use axiom_carriers.Antie.Node.{io_error, send_lem, invalid_payload, Node, bump}
use axiom_carriers.Antie.Response.{
  AntieEmail, ResponsePayload, CustodyRoute, Replies, find_row, session_header, reply_name,
  tee_copy, mail, by_row, in_custody, send_response,
}

deposit-AfterOk :
    (dir name : Text) (bytes : Bytes) (d : Disk)
    → AfterOk (λ e. lookup (join dir name) e.files ≡ some bytes) (deposit dir name bytes d)
unfolding deposit
deposit-AfterOk dir name bytes d =
    let tmp = tmp_path dir name in
    let d1 : Disk = (call d).1 in
    let d2 : Disk = (create tmp d1).1 in
    let d3 : Disk = (write_all tmp bytes d2).1 in
    let d4 : Disk = (call d3).1 in
    let d5 : Disk = (rename tmp (join dir name) d4).1 in
    ground (
      arith,
      write_all-AfterOk tmp bytes d2,
      call-files d3,
      rename-AfterOk tmp (join dir name) bytes d4,
      call-files d5,
      call-files (call d5).1,
    )

-- A mail is taken and counted, or neither.
pub mail_lem :
    (to : Text) (bytes : Bytes) (n : Node)
    → let r = mail to bytes n in
      (r.1.disk ≡ n.disk)
      × (((r.0 ≡ ok tt)
            × (r.1.mails ≡ (to, bytes) ∷ n.mails)
            × (r.1.stats.emails_sent ≡ bump n.stats.emails_sent))
          ⊎ ((r.0 ≡ err io_error) × (r.1.mails ≡ n.mails) × (r.1.stats ≡ n.stats)))
unfolding mail
mail_lem to bytes n = ground (arith, send_lem to bytes n)

-- The reply is in the sender's mailbox, or it is in the session's directory and nothing was mailed.
abbrev pub Delivered : Replies → AntieEmail → ResponsePayload → Bytes → Node → Node → Type 0
Delivered rs email payload bytes n n' =
    (n'.mails ≡ (email.from, bytes) ∷ n.mails)
    ⊎ ((n'.mails ≡ n.mails)
        × ((hdr : Text) × (id : Text) × (row : CustodyRoute) × (email.custody ≡ some (hdr, id))
            × (find_row hdr rs.routes ≡ some row)
            × (lookup (join (join row.outbox id) (reply_name payload)) n'.disk.files ≡ some bytes)))

by_row-Delivered :
    (rs : Replies) (o : Option CustodyRoute) (hdr id : Text) (email : AntieEmail)
    (payload : ResponsePayload) (bytes : Bytes) (n : Node)
    → email.custody ≡ some (hdr, id)
    → find_row hdr rs.routes ≡ o
    → (by_row o id email payload bytes n).0 ≡ ok tt
    → Delivered rs email payload bytes n (by_row o id email payload bytes n).1
by_row-Delivered rs none hdr id email payload bytes n ec ef e =
    inl (ground (arith, mail_lem email.from bytes n))
by_row-Delivered rs (some row) hdr id email payload bytes n ec ef e =
    let r = deposit (join row.outbox id) (reply_name payload) bytes n.disk in
    let n' : Node = record n { disk = r.1 } in
    let there = deposit-AfterOk (join row.outbox id) (reply_name payload) bytes n.disk in
    elim (Bool-cases row.suppress_email) [
      | inl quiet ↦
          inr (ground (arith, quiet), (hdr, id, row, ec, ef, ground (arith, quiet, there)))
      | inr loud ↦ inl (ground (arith, loud, mail_lem email.from bytes n'))
    ]

in_custody-Delivered :
    (rs : Replies) (o : Option (Text × Text)) (email : AntieEmail) (payload : ResponsePayload)
    (bytes : Bytes) (n : Node)
    → email.custody ≡ o
    → (in_custody rs o email payload bytes n).0 ≡ ok tt
    → Delivered rs email payload bytes n (in_custody rs o email payload bytes n).1
in_custody-Delivered rs none email payload bytes n ec e =
    inl (ground (arith, mail_lem email.from bytes n))
in_custody-Delivered rs (some (hdr, id)) email payload bytes n ec e =
    elim (Bool-cases (same_ignore_case hdr session_header && rs.is_dev_wallet email.from)) [
      | inl dev ↦ absurd (ground (arith, dev))
      | inr fine ↦ rw fine (
          by_row-Delivered rs (find_row hdr rs.routes) hdr id email payload bytes n ec refl
            (ground (arith, fine)))
    ]

-- A reply that counts as sent is with the sender of the request, or it lies complete in the directory
-- of the session that holds the request; it is never lost.
pub send_response-Delivered :
    (rs : Replies) (email : AntieEmail) (payload : ResponsePayload) (bytes : Bytes) (n : Node)
    → rs.build_response email payload ≡ ok bytes
    → (send_response rs email payload n).0 ≡ ok tt
    → Delivered rs email payload bytes n (send_response rs email payload n).1
unfolding send_response
send_response-Delivered rs email payload bytes n built e =
    let n' : Node = record n { disk = tee_copy rs.sink email.uncle_correlate bytes n.disk } in
    ground (arith, in_custody-Delivered rs email.custody email payload bytes n' refl)

-- A row that suppresses mail has no reply mailed, whatever fails.
send_response_suppressed :
    (rs : Replies) (email : AntieEmail) (payload : ResponsePayload) (n : Node) (hdr id : Text)
    (row : CustodyRoute)
    → email.custody ≡ some (hdr, id)
    → find_row hdr rs.routes ≡ some row
    → row.suppress_email ≡ true
    → (send_response rs email payload n).1.mails ≡ n.mails
unfolding send_response
send_response_suppressed rs email payload n hdr id row ec ef quiet = ground arith

-- A message of a dev wallet that carries the session's stamp is refused: nothing is mailed, and no
-- file is written but the copy for UNCLE.
pub send_response_dev :
    (rs : Replies) (email : AntieEmail) (payload : ResponsePayload) (bytes : Bytes) (n : Node)
    (hdr id : Text)
    → email.custody ≡ some (hdr, id)
    → same_ignore_case hdr session_header ≡ true
    → rs.is_dev_wallet email.from ≡ true
    → rs.build_response email payload ≡ ok bytes
    → send_response rs email payload n ≡ (
      err invalid_payload,
      record n { disk = tee_copy rs.sink email.uncle_correlate bytes n.disk },
    )
unfolding send_response
send_response_dev rs email payload bytes n hdr id ec stamp dev built = ground arith
