-- ===== src/Antie/Handlers.antt =====
-- antie/src/gateway.rs: the handlers of the requests that the gateway passes on to Lambda, or refuses.
pub mod Coded
pub mod Audits
pub mod Asked
use axiom_carriers.Base.{
  ℕ, ◌==◌, Bool, true, false, if◌then◌else◌, Option, none, some, List, [], ◌∷◌, ◌++◌, length,
}
use axiom_carriers.Base.Text.{Text, codes, trim}
use axiom_carriers.Base.Result.{Result, ok, err}
use axiom_carriers.Disk.{Bytes}
use axiom_carriers.Antie.CareOf.{is_empty}
use axiom_carriers.Antie.Node.{AntieError, invalid_payload, Stats, bump, Node, Act, send}
use axiom_carriers.Antie.Response.{AntieEmail, ResponsePayload}
use axiom_carriers.Antie.Dispatch.{
  Kind, witness, redeem, ack, query, validator_status, init_genesis_dev, vbc_sign_request,
  vbc_sign_commit, set_auth_hash, peer_audit_request, peer_audit_response, fanout_relay,
}

-- antie/src/email.rs, `AntiePayload`: the fields that these handlers read. `query_wallet_pk` is the key
-- that the query's parameters hold.
pub record Payload : Type 0 where
  pub query_wallet_pk : Option Bytes
  pub public_key : Option Bytes
  pub balance : Option ℕ
  pub group_members : Option Bytes
  pub auth_hash : Option Bytes
  pub txid : Option Bytes
  pub validator_pk : Option Bytes
  pub sender_sig : Option Bytes
  pub client_pk : Option Bytes
  pub sphincs_pk_hex : Option Text
  pub dilithium_pk_hex : Option Text
  pub ed25519_pk_hex : Option Text
  pub pgp_fingerprint_hex : Option Text
  pub proof_cap : Option Text
  pub node_name_field : Option Text
  pub issued_at : Option ℕ
  pub expires_at : Option ℕ
  pub chain_depth : Option ℕ
  pub issuer_set_hex : List Text
  pub peer_audit_request : Option Bytes
  pub peer_audit_response : Option Bytes
  pub peer_audit_not_held : Option Bytes

-- What Lambda is asked.
pub record GenesisDev : Type 0 where
  pub request_id : Text
  pub public_key : Bytes
  pub balance : ℕ
  pub group_members : Option Bytes
  pub auth_hash : Option Bytes

-- `rest` is the envelope behind its `request_id`.
pub record RedeemRequest : Type 0 where
  pub request_id : Text
  pub rest : Bytes

pub record AckRequest : Type 0 where
  pub request_id : Text
  pub txid : Bytes
  pub validator_pk : Bytes
  pub sender_sig : Bytes
  pub client_pk : Bytes

pub record VbcSignRequest : Type 0 where
  pub request_id : Text
  pub sphincs_pk_hex : Text
  pub dilithium_pk_hex : Text
  pub ed25519_pk_hex : Text
  pub pgp_fingerprint_hex : Text
  pub proof_cap : Text
  pub node_name : Text

pub record VbcSignCommit : Type 0 where
  pub request : VbcSignRequest
  pub issued_at : ℕ
  pub expires_at : ℕ
  pub chain_depth : ℕ
  pub issuer_set_hex : List Text

-- What Lambda answers: whether it did it, and the fields that are passed on.
pub record Verdict : Type 0 where
  pub success : Bool
  pub body : Bytes

pub record Found : Type 0 where
  pub found : Bool
  pub wallet_state : Option Bytes

pub record Audited : Type 0 where
  pub success : Bool
  pub body : Bytes
  pub requester_email : Option Text
  pub response : Option Bytes
  pub not_held : Option Bytes

-- Lambda, and the libraries that encode and decode. `identity` is the validator's own address.
pub record Backend : Type 0 where
  pub payload_of : Bytes → Payload
  pub decode_redeem : Bytes → Option RedeemRequest
  pub wallet_query_projection : Bytes → Result AntieError Bytes
  pub vsp_data : Bytes → Result AntieError Bytes
  pub send_query_request : Bytes → Result AntieError Found
  pub send_validator_status_request : Text → Result AntieError Bytes
  pub send_genesis_dev_request : GenesisDev → Result AntieError Verdict
  pub send_redeem_request : RedeemRequest → Result AntieError Verdict
  pub send_ack_request : AckRequest → Result AntieError Verdict
  pub send_vbc_sign_request : VbcSignRequest → Result AntieError Verdict
  pub send_vbc_sign_commit : VbcSignCommit → Result AntieError Verdict
  pub send_set_auth_hash_request : Text → Bytes → Bytes → Result AntieError Verdict
  pub send_peer_audit_request : Bytes → Result AntieError Audited
  pub send_peer_audit_not_held : Bytes → Result AntieError (Unit {0})
  pub send_peer_audit_response : Bytes → Result AntieError (Unit {0})
  pub identity : Text
  pub build_peer_audit_response_email : Text → Text → Bytes → Result AntieError Bytes
  pub build_peer_audit_not_held_email : Text → Text → Bytes → Result AntieError Bytes

infixl 5 ◌>>=◌ ◌>>◌
unfoldable pub ◌>>=◌ : {A B : Type 0} → Act A → (A → Act B) → Act B
◌>>=◌ m f n = let r = m n in elim r.0 [ ok a ↦ f a r.1 | err e ↦ (err e, r.1) ]

abbrev pub ◌>>◌ : {A B : Type 0} → Act A → Act B → Act B
m >> k = m >>= λ _. k

abbrev pub pure : {A : Type 0} → A → Act A
pure a n = (ok a, n)

-- `?` on a value
abbrev pub lift : {A : Type 0} → Result AntieError A → Act A
lift r n = (r, n)

-- `ok_or_else(|| AntieError::InvalidPayload(…))`
abbrev pub require : {A : Type 0} → Option A → Act A
require none n = (err invalid_payload, n)
require (some a) n = (ok a, n)

abbrev pub ensure : Bool → Act (Unit {0})
ensure b n = if b then (ok tt, n) else (err invalid_payload, n)

abbrev pub tracked : {A : Type 0} → Result AntieError A → Act A
tracked (ok a) n = (ok a, n)
tracked (err e) n =
    (err e, record n { stats = record n.stats { lambda_errors = bump n.stats.lambda_errors } })

-- Each call of Lambda is counted, and so is each that fails.
unfoldable pub track_lambda : {A : Type 0} → Result AntieError A → Act A
track_lambda r n =
    tracked r
      (record n { stats = record n.stats { lambda_requests = bump n.stats.lambda_requests } })

-- A reply with the code of its refusal.
abbrev pub coded : AntieEmail → Text → Verdict → ResponsePayload
coded email code v = record {
  success = v.success;
  request_id = email.request_id;
  rejection_code = if v.success then none else some code;
  body = v.body;
}

abbrev pub plain : AntieEmail → Bool → Bytes → ResponsePayload
plain email success body = record {
  success = success;
  request_id = email.request_id;
  rejection_code = none;
  body = body;
}

abbrev pub or_empty : Option Text → Text
or_empty none = []
or_empty (some s) = s

-- `Some(e)` is the hint's address; without one, it is the sender's, unless that is blank.
abbrev pub peer_audit_reply_address : Option Text → Text → Option Text
peer_audit_reply_address (some e) envelope_from = some e
peer_audit_reply_address none envelope_from =
    if is_empty (trim envelope_from) then none else some (trim envelope_from)

module _ (b : Backend) where
  abbrev projected : AntieEmail → Option Bytes → Act ResponsePayload
  projected email none = pure (plain email true [])
  projected email (some state) = do
    data_map ← lift (b.wallet_query_projection state)
    pure (plain email true data_map)

  abbrev found_as : AntieEmail → Found → Act ResponsePayload
  found_as email r =
      if r.found
      then projected email r.wallet_state
      else pure (coded email (codes "NOT_FOUND") (record { success = false; body = [] }))

  unfoldable pub handle_query : AntieEmail → Payload → Act ResponsePayload
  handle_query email p = do
    wallet_pk ← require p.query_wallet_pk
    r ← track_lambda (b.send_query_request wallet_pk)
    found_as email r

  unfoldable pub handle_validator_status : AntieEmail → Act ResponsePayload
  handle_validator_status email = do
    vsp ← track_lambda (b.send_validator_status_request email.request_id)
    body ← lift (b.vsp_data vsp)
    pure (plain email true body)

  unfoldable pub handle_genesis_dev : AntieEmail → Payload → Act ResponsePayload
  handle_genesis_dev email p = do
    key ← require p.public_key
    amount ← require p.balance
    v ← track_lambda (
        b.send_genesis_dev_request (record {
          request_id = email.request_id;
          public_key = key;
          balance = amount;
          group_members = p.group_members;
          auth_hash = p.auth_hash;
        }))
    pure (coded email (codes "GENESIS_FAILED") v)

  -- The envelope's id fills what the body leaves empty.
  abbrev pub filled : AntieEmail → RedeemRequest → RedeemRequest
  filled email r = record r {
    request_id = if is_empty r.request_id then email.request_id else r.request_id;
  }

  unfoldable pub handle_redeem_request : AntieEmail → Act ResponsePayload
  handle_redeem_request email = do
    r ← require (b.decode_redeem email.raw_ump_body)
    v ← track_lambda (b.send_redeem_request (filled email r))
    pure (coded email (codes "REDEEM_FAILED") v)

  unfoldable pub handle_ack_request : AntieEmail → Payload → Act ResponsePayload
  handle_ack_request email p = do
    id ← require p.txid
    ensure (length id == 32)
    validator ← require p.validator_pk
    sig ← require p.sender_sig
    client ← require p.client_pk
    v ← track_lambda (
        b.send_ack_request (record {
          request_id = email.request_id;
          txid = id;
          validator_pk = validator;
          sender_sig = sig;
          client_pk = client;
        }))
    pure (coded email (codes "ACK_FAILED") v)

  abbrev pub certificate : AntieEmail → Payload → Text → Text → Text → VbcSignRequest
  certificate email p sphincs dilithium ed25519 = record {
    request_id = email.request_id;
    sphincs_pk_hex = sphincs;
    dilithium_pk_hex = dilithium;
    ed25519_pk_hex = ed25519;
    pgp_fingerprint_hex = or_empty p.pgp_fingerprint_hex;
    proof_cap = or_empty p.proof_cap;
    node_name = or_empty p.node_name_field;
  }

  unfoldable pub handle_vbc_sign_request : AntieEmail → Payload → Act ResponsePayload
  handle_vbc_sign_request email p = do
    sphincs ← require p.sphincs_pk_hex
    dilithium ← require p.dilithium_pk_hex
    ed25519 ← require p.ed25519_pk_hex
    v ← track_lambda (b.send_vbc_sign_request (certificate email p sphincs dilithium ed25519))
    pure (coded email (codes "VBC_SIGN_FAILED") v)

  unfoldable pub handle_vbc_sign_commit : AntieEmail → Payload → Act ResponsePayload
  handle_vbc_sign_commit email p = do
    sphincs ← require p.sphincs_pk_hex
    dilithium ← require p.dilithium_pk_hex
    ed25519 ← require p.ed25519_pk_hex
    issued ← require p.issued_at
    expires ← require p.expires_at
    depth ← require p.chain_depth
    ensure (length p.issuer_set_hex == 3)
    v ← track_lambda (
        b.send_vbc_sign_commit (record {
          request = certificate email p sphincs dilithium ed25519;
          issued_at = issued;
          expires_at = expires;
          chain_depth = depth;
          issuer_set_hex = p.issuer_set_hex;
        }))
    pure (coded email (codes "VBC_SIGN_COMMIT_FAILED") v)

  unfoldable pub handle_set_auth_hash : AntieEmail → Payload → Act ResponsePayload
  handle_set_auth_hash email p = do
    key ← require p.public_key
    hash ← require p.auth_hash
    ensure (length hash == 32)
    v ← track_lambda (b.send_set_auth_hash_request email.request_id key hash)
    pure (coded email (codes "SET_AUTH_HASH_FAILED") v)

  -- A failed send is only logged.
  abbrev pub sent_to : Text → Bytes → Act (Unit {0})
  sent_to to mail n = (ok tt, (send to mail n).1)

  -- An answer is mailed if there is one and somewhere to mail it.
  abbrev pub mail_answer :
      (Text → Text → Bytes → Result AntieError Bytes) → Option Bytes → Option Text → Act (Unit {0})
  mail_answer build (some answer) (some to) = do
    mail ← lift (build b.identity to answer)
    sent_to to mail
  mail_answer build (some _) none = pure tt
  mail_answer build none to = pure tt

  unfoldable pub handle_peer_audit_request : AntieEmail → Payload → Act ResponsePayload
  unfolding trim
  handle_peer_audit_request email p = do
    request ← require p.peer_audit_request
    r ← track_lambda (b.send_peer_audit_request request)
    mail_answer b.build_peer_audit_response_email r.response
        (peer_audit_reply_address r.requester_email email.from)
    mail_answer b.build_peer_audit_not_held_email r.not_held
        (peer_audit_reply_address r.requester_email email.from)
    pure (plain email r.success r.body)

  -- `if let Err(e) = … { warn!(…) }`
  abbrev pub or_warn : Act (Unit {0}) → Act (Unit {0})
  or_warn m n = (ok tt, (m n).1)

  abbrev pub forwarded : Option Bytes → Option Bytes → Act (Unit {0})
  forwarded (some not_held) response = or_warn (track_lambda (b.send_peer_audit_not_held not_held))
  forwarded none response = do
    answer ← require response
    or_warn (track_lambda (b.send_peer_audit_response answer))

  unfoldable pub handle_peer_audit_response : AntieEmail → Payload → Act ResponsePayload
  handle_peer_audit_response email p = do
    forwarded p.peer_audit_not_held p.peer_audit_response
    pure (plain email true [])

  -- Refused at the door, and counted.
  unfoldable pub handle_fanout_relay : AntieEmail → Act ResponsePayload
  handle_fanout_relay email n = (
    ok (coded email (codes "FANOUT_RELAY_REFUSED") (record { success = false; body = [] })),
    record n {
      stats = record n.stats { fanout_relay_refused = bump n.stats.fanout_relay_refused };
    },
  )

  -- The dispatch, with the handler of witness requests, which has its own state.
  unfoldable pub handle :
      (AntieEmail → Act ResponsePayload) → Kind → AntieEmail → Act ResponsePayload
  unfolding handle_query handle_validator_status handle_genesis_dev handle_redeem_request
      handle_ack_request handle_vbc_sign_request handle_vbc_sign_commit handle_set_auth_hash
      handle_peer_audit_request handle_peer_audit_response handle_fanout_relay
  handle handle_witness_request witness email = handle_witness_request email
  handle handle_witness_request redeem email = handle_redeem_request email
  handle handle_witness_request ack email =
      handle_ack_request email (b.payload_of email.raw_ump_body)
  handle handle_witness_request query email = handle_query email (b.payload_of email.raw_ump_body)
  handle handle_witness_request validator_status email = handle_validator_status email
  handle handle_witness_request init_genesis_dev email =
      handle_genesis_dev email (b.payload_of email.raw_ump_body)
  handle handle_witness_request vbc_sign_request email =
      handle_vbc_sign_request email (b.payload_of email.raw_ump_body)
  handle handle_witness_request vbc_sign_commit email =
      handle_vbc_sign_commit email (b.payload_of email.raw_ump_body)
  handle handle_witness_request set_auth_hash email =
      handle_set_auth_hash email (b.payload_of email.raw_ump_body)
  handle handle_witness_request peer_audit_request email =
      handle_peer_audit_request email (b.payload_of email.raw_ump_body)
  handle handle_witness_request peer_audit_response email =
      handle_peer_audit_response email (b.payload_of email.raw_ump_body)
  handle handle_witness_request fanout_relay email = handle_fanout_relay email
