-- ===== src/Antie/Dispatch.antt =====
-- antie/src/gateway.rs, `process_message`: one message from the inbox.
pub mod Answers
use axiom_carriers.Base.{
  ℕ, ◌*◌, ltb, Bool, true, false, ◌||◌, if◌then◌else◌, Option, none, some, [], ◌∷◌, length,
}
use axiom_carriers.Base.Text.{Text, codes, same}
use axiom_carriers.Base.Result.{Result, ok, err}
use axiom_carriers.Disk.{Bytes}
use axiom_carriers.Antie.Node.{AntieError, lambda_rejected, Stats, bump, Node, Act}
use axiom_carriers.Antie.Response.{AntieEmail, ResponsePayload, Replies, send_response}

-- antie/src/email.rs
pub data ParseOutcome : Type 0 where
  parsed : AntieEmail → ParseOutcome
  decrypt_failed : ParseOutcome

-- The message types of the dispatch.
pub data Kind : Type 0 where
  witness redeem ack query validator_status init_genesis_dev vbc_sign_request : Kind
  vbc_sign_commit set_auth_hash peer_audit_request peer_audit_response fanout_relay : Kind

unfoldable pub kind_of : Text → Option Kind
kind_of t =
    if same t (codes "witness")
    then some witness
    else if same t (codes "redeem")
    then some redeem
    else if same t (codes "ack")
    then some ack
    else if same t (codes "query")
    then some query
    else if same t (codes "validator_status")
    then some validator_status
    else if same t (codes "init_genesis_dev")
    then some init_genesis_dev
    else if same t (codes "vbc_sign_request")
    then some vbc_sign_request
    else if same t (codes "vbc_sign_commit")
    then some vbc_sign_commit
    else if same t (codes "set_auth_hash")
    then some set_auth_hash
    else if same t (codes "peer_audit_request")
    then some peer_audit_request
    else if same t (codes "peer_audit_response")
    then some peer_audit_response
    else if same t (codes "fanout_relay")
    then some fanout_relay
    else none

unfoldable pub answers_out_of_band : Text → Bool
answers_out_of_band t = same t (codes "peer_audit_request") || same t (codes "peer_audit_response")

-- 8 MiB
abbrev pub max_message_bytes : ℕ
max_message_bytes = 8 * 1024 * 1024

-- The parsers, the filing of a certificate, and a handler for each type.
pub record Handlers : Type 0 where
  pub replies : Replies
  pub try_parse_vbc_delivery : Bytes → Option Bytes
  pub file_vbc_delivery : Bytes → Bytes → Node → Node
  pub parse_email_outcome : Bytes → Result AntieError ParseOutcome
  pub handle : Kind → AntieEmail → Act ResponsePayload

-- A failure that says no more than its code.
abbrev pub refusal : AntieEmail → Text → ResponsePayload
refusal email code = record {
  success = false;
  request_id = email.request_id;
  rejection_code = some code;
  body = [];
}

-- A typed verdict of Lambda keeps its code.
abbrev pub error_code : AntieError → Text
error_code (lambda_rejected code) = code
error_code _ = codes "INTERNAL_ERROR"

abbrev pub payload_for : AntieEmail → Result AntieError ResponsePayload → ResponsePayload
payload_for email (ok payload) = payload
payload_for email (err e) = refusal email (error_code e)

module _ (h : Handlers) where
  abbrev pub respond : Option Kind → AntieEmail → Act ResponsePayload
  respond (some k) email n = h.handle k email n
  respond none email n = (ok (refusal email (codes "UNKNOWN_TYPE")), n)

  abbrev pub answered :
      AntieEmail → Result AntieError ResponsePayload × Node → Result AntieError (Unit {0}) × Node
  answered email r =
      if answers_out_of_band email.message_type
      then (ok tt, r.1)
      else send_response h.replies email (payload_for email r.0) r.1

  abbrev pub received_as :
      Result AntieError ParseOutcome → Node → Result AntieError (Unit {0}) × Node
  received_as (ok (parsed email)) n = answered email (respond (kind_of email.message_type) email n)
  received_as (ok decrypt_failed) n =
      (ok tt, record n { stats = record n.stats { decrypt_fail = bump n.stats.decrypt_fail } })
  received_as (err e) n =
      (ok tt, record n { stats = record n.stats { parse_fail = bump n.stats.parse_fail } })

  abbrev pub opened : Option Bytes → Bytes → Node → Result AntieError (Unit {0}) × Node
  opened (some sig) raw n = (ok tt, h.file_vbc_delivery raw sig n)
  opened none raw n = received_as (h.parse_email_outcome raw) n

  unfoldable pub process_message : Bytes → Act (Unit {0})
  process_message raw n =
      if ltb max_message_bytes (length raw)
      then (
        ok tt,
        record n { stats = record n.stats { oversize_dropped = bump n.stats.oversize_dropped } },
      )
      else opened (h.try_parse_vbc_delivery raw) raw n
