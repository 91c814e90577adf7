-- ===== src/Tests/Requests.antt =====
-- antie/src/gateway.rs: the handlers on a few requests.
use axiom_carriers.Base.{
  ℕ, Bool, true, false, Option, none, some, List, [], ◌∷◌, ◌++◌, ◌≡◌, refl, ◌⊎◌, inl, inr,
  if◌then◌else◌,
}
use axiom_carriers.Base.Text.{Text, codes}
use axiom_carriers.Base.Result.{ok, err}
use axiom_carriers.Antie.Node.{invalid_payload, Act}
use axiom_carriers.Antie.Response.{AntieEmail, ResponsePayload}
use axiom_carriers.Antie.Dispatch.{set_auth_hash}
use axiom_carriers.Antie.Handlers.{
  Payload, Backend, Verdict, Audited, plain, handle, handle_peer_audit_request,
}
use axiom_carriers.Antie.Handlers.Asked.{Asked, handle-Asked}
use axiom_carriers.Antie.Handlers.Audits.{handle_peer_audit_request_answered}
use axiom_carriers.Tests.{node, ask, reply}

-- A payload that asks for an audit, and one hash of the wrong length.
abbrev payload : Payload
payload = record {
  query_wallet_pk = none;
  public_key = some (1 ∷ []);
  balance = none;
  group_members = none;
  auth_hash = some (1 ∷ 2 ∷ []);
  txid = none;
  validator_pk = none;
  sender_sig = none;
  client_pk = none;
  sphincs_pk_hex = none;
  dilithium_pk_hex = none;
  ed25519_pk_hex = none;
  pgp_fingerprint_hex = none;
  proof_cap = none;
  node_name_field = none;
  issued_at = none;
  expires_at = none;
  chain_depth = none;
  issuer_set_hex = [];
  peer_audit_request = some (5 ∷ []);
  peer_audit_response = none;
  peer_audit_not_held = none;
}

abbrev refused : Verdict
refused = record { success = false; body = 3 ∷ [] }

abbrev held : Audited
held = record {
  success = true;
  body = [];
  requester_email = none;
  response = some (6 ∷ []);
  not_held = none;
}

abbrev backend : Backend
backend = record {
  payload_of = λ raw. payload;
  decode_redeem = λ raw. none;
  wallet_query_projection = λ s. ok s;
  vsp_data = λ s. ok s;
  send_query_request = λ pk. ok (record { found = false; wallet_state = none });
  send_validator_status_request = λ id. ok [];
  send_genesis_dev_request = λ r. ok refused;
  send_redeem_request = λ r. ok refused;
  send_ack_request = λ r. ok refused;
  send_vbc_sign_request = λ r. ok refused;
  send_vbc_sign_commit = λ r. ok refused;
  send_set_auth_hash_request = λ id key hash. ok refused;
  send_peer_audit_request = λ r. ok held;
  send_peer_audit_not_held = λ r. ok tt;
  send_peer_audit_response = λ r. ok tt;
  identity = codes "v@w";
  build_peer_audit_response_email = λ from to answer. ok answer;
  build_peer_audit_not_held_email = λ from to answer. ok answer;
}

abbrev witnessing : AntieEmail → Act ResponsePayload
witnessing email n = (ok reply, n)

-- A payload with a hash of the right length, which Lambda refuses.
abbrev whole : Backend
whole = record backend {
  payload_of = λ raw. record payload {
    auth_hash = some (
        0 ∷ 1 ∷ 2 ∷ 3 ∷ 4 ∷ 5 ∷ 6 ∷ 7 ∷ 8 ∷ 9 ∷ 10 ∷ 11 ∷ 12 ∷ 13 ∷ 14 ∷ 15 ∷ 16 ∷ 17 ∷ 18 ∷ 19 ∷ 20
        ∷ 21 ∷ 22 ∷ 23 ∷ 24 ∷ 25 ∷ 26 ∷ 27 ∷ 28 ∷ 29 ∷ 30 ∷ 31 ∷ []);
  };
}

abbrev refusal_of_hash : ResponsePayload
refusal_of_hash = record {
  success = false;
  request_id = codes "r1";
  rejection_code = some (codes "SET_AUTH_HASH_FAILED");
  body = 3 ∷ [];
}

handle-Asked_example :
    Asked node (handle backend witnessing set_auth_hash (ask (codes "set_auth_hash")) node)
handle-Asked_example =
    handle-Asked backend witnessing set_auth_hash (ask (codes "set_auth_hash")) node tt

-- A hash of the wrong length is refused, and Lambda is not asked.
short_hash :
    handle backend witnessing set_auth_hash (ask (codes "set_auth_hash")) node
    ≡ (err invalid_payload, node)
unfolding handle axiom_carriers.Antie.Handlers.◌>>=◌
short_hash = refl

handle_peer_audit_request_answered_example :
    let done = handle_peer_audit_request backend (ask (codes "peer_audit_request")) payload node in
    (done.0 ≡ ok (plain (ask (codes "peer_audit_request")) true []))
    × (done.1.mails ≡ (codes "alice@example.com/a1", 6 ∷ []) ∷ [])
unfolding axiom_carriers.Base.Text.trim
handle_peer_audit_request_answered_example =
    handle_peer_audit_request_answered backend (ask (codes "peer_audit_request")) payload node
      (5 ∷ []) (6 ∷ []) (6 ∷ []) (codes "alice@example.com/a1") held refl refl
      (inr (refl, refl, refl)) (inl (refl, refl, refl)) refl
