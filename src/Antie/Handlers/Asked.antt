-- ===== src/Antie/Handlers/Asked.antt =====
-- antie/src/gateway.rs: a request that is incomplete goes no further, and one that is complete asks
-- Lambda once.
use axiom_carriers.Base.{
  ℕ, ◌==◌, Bool, true, false, Option, none, some, [], ◌≡◌, refl, ap, ◌∙◌, ◌⊎◌, inl, inr, length,
}
use axiom_carriers.Base.Text.{Text}
use axiom_carriers.Base.Result.{Result, ok, err, Result-cases}
use axiom_carriers.Disk.{Bytes}
use axiom_carriers.Antie.Node.{AntieError, invalid_payload, Stats, bump, Node, Act, send_lem}
use axiom_carriers.Antie.Response.{AntieEmail, ResponsePayload}
use axiom_carriers.Antie.Dispatch.{
  Kind, witness, redeem, ack, query, validator_status, init_genesis_dev, vbc_sign_request,
  vbc_sign_commit, set_auth_hash, peer_audit_request, peer_audit_response, fanout_relay,
}
use axiom_carriers.Antie.Handlers.{
  Payload, Backend, Verdict, ◌>>=◌, pure, lift, require, ensure, track_lambda, coded, plain,
  projected, found_as, mail_answer, sent_to, handle, handle_query, handle_validator_status,
  handle_genesis_dev, handle_redeem_request, handle_ack_request, handle_vbc_sign_request,
  handle_vbc_sign_commit, handle_set_auth_hash, handle_peer_audit_request,
}
use axiom_carriers.Antie.Handlers.Coded.{bind-ok, bind-err}

-- The counter of Lambda's calls.
abbrev pub calls : Node → ℕ
calls n = n.stats.lambda_requests

-- A step that asks Lambda nothing.
abbrev Quiet : {A : Type 0} → Act A → Type 0
Quiet m = (n : Node) → calls (m n).1 ≡ calls n

-- Refused, with nothing touched, or Lambda was asked once.
abbrev pub Asked : {A : Type 0} → Node → Result AntieError A × Node → Type 0
Asked n r = ((r.0 ≡ err invalid_payload) × (r.1 ≡ n)) ⊎ (calls r.1 ≡ bump (calls n))

abbrev Asks : {A : Type 0} → Act A → Type 0
Asks m = (n : Node) → Asked n (m n)

module _ {A B : Type 0} where
  >>=-Quiet : (m : Act A) (f : A → Act B) → Quiet m → ((a : A) → Quiet (f a)) → Quiet (m >>= f)
  >>=-Quiet m f hm hf n = elim (Result-cases (m n).0) [
    | inl (a, e) ↦ ap (λ r. calls r.1) (bind-ok m f n a e) ∙ hf a (m n).1 ∙ hm n
    | inr (x, e) ↦ ap (λ r. calls r.1) (bind-err m f n x e) ∙ hm n
  ]

  require-Asks : (o : Option A) (f : A → Act B) → ((a : A) → Asks (f a)) → Asks (require o >>= f)
  unfolding ◌>>=◌
  require-Asks none f h n = inl (refl, refl)
  require-Asks (some a) f h n = h a n

  track-Asks :
      (r : Result AntieError A) (f : A → Act B)
      → ((a : A) → Quiet (f a))
      → Asks (track_lambda r >>= f)
  unfolding ◌>>=◌ track_lambda
  track-Asks (ok a) f h n = inr (h a _)
  track-Asks (err e) f h n = inr refl

ensure-Asks :
    {B : Type 0} (c : Bool) (f : Unit {0} → Act B)
    → ((u : Unit {0}) → Asks (f u))
    → Asks (ensure c >>= f)
unfolding ◌>>=◌
ensure-Asks false f h n = inl (refl, refl)
ensure-Asks true f h n = h tt n

pure-Quiet : {A : Type 0} (a : A) → Quiet (pure a)
pure-Quiet a n = refl

sent_to-Quiet : (b : Backend) (to : Text) (mail : Bytes) → Quiet (sent_to b to mail)
sent_to-Quiet b to mail n = ap (λ (s : Stats). s.lambda_requests) (send_lem to mail n).1

lift-Quiet : {A : Type 0} (r : Result AntieError A) → Quiet (lift r)
lift-Quiet r n = refl

mail_answer-Quiet :
    (b : Backend) (build : Text → Text → Bytes → Result AntieError Bytes) (o : Option Bytes)
    (to : Option Text)
    → Quiet (mail_answer b build o to)
mail_answer-Quiet b build (some answer) (some to) =
    >>=-Quiet (lift (build b.identity to answer)) _ (lift-Quiet (build b.identity to answer))
      (λ m. sent_to-Quiet b to m)
mail_answer-Quiet b build (some _) none = pure-Quiet tt
mail_answer-Quiet b build none to = pure-Quiet tt

module _ (b : Backend) (email : AntieEmail) (p : Payload) where
  projected-Quiet : (o : Option Bytes) → Quiet (projected b email o)
  projected-Quiet none = pure-Quiet (plain email true [])
  projected-Quiet (some s) =
      >>=-Quiet (lift (b.wallet_query_projection s)) _ (lift-Quiet (b.wallet_query_projection s))
        (λ m. pure-Quiet (plain email true m))

  found_as-Quiet :
      (found : Bool) (o : Option Bytes)
      → Quiet (found_as b email (record { found = found; wallet_state = o }))
  found_as-Quiet true o = projected-Quiet o
  found_as-Quiet false o = λ n. refl

  verdict-Asks :
      (code : Text) (v : Result AntieError Verdict)
      → Asks (track_lambda v >>= λ x. pure (coded email code x))
  verdict-Asks code v = track-Asks v _ (λ x. pure-Quiet (coded email code x))

  query-Asks : Asks (handle_query b email p)
  unfolding handle_query
  query-Asks =
      require-Asks p.query_wallet_pk _
        (λ pk. track-Asks (b.send_query_request pk) _ (λ r. found_as-Quiet r.found r.wallet_state))

  status-Asks : Asks (handle_validator_status b email)
  unfolding handle_validator_status
  status-Asks = track-Asks (b.send_validator_status_request email.request_id) _ λ vsp.
      >>=-Quiet (lift (b.vsp_data vsp)) _ (lift-Quiet (b.vsp_data vsp))
        (λ body. pure-Quiet (plain email true body))

  genesis-Asks : Asks (handle_genesis_dev b email p)
  unfolding handle_genesis_dev
  genesis-Asks =
      require-Asks p.public_key _ (λ key. require-Asks p.balance _ (λ amount. verdict-Asks _ _))

  redeem-Asks : Asks (handle_redeem_request b email)
  unfolding handle_redeem_request
  redeem-Asks = require-Asks (b.decode_redeem email.raw_ump_body) _ (λ r. verdict-Asks _ _)

  ack-Asks : Asks (handle_ack_request b email p)
  unfolding handle_ack_request
  ack-Asks = require-Asks p.txid _ λ id. ensure-Asks (length id == 32) _ λ _.
      require-Asks p.validator_pk _
        λ v. require-Asks p.sender_sig _ (λ sig. require-Asks p.client_pk _ (λ c. verdict-Asks _ _))

  sign-Asks : Asks (handle_vbc_sign_request b email p)
  unfolding handle_vbc_sign_request
  sign-Asks = require-Asks p.sphincs_pk_hex _ λ s.
      require-Asks p.dilithium_pk_hex _
        (λ d. require-Asks p.ed25519_pk_hex _ (λ e. verdict-Asks _ _))

  commit-Asks : Asks (handle_vbc_sign_commit b email p)
  unfolding handle_vbc_sign_commit
  commit-Asks = require-Asks p.sphincs_pk_hex _ λ s. require-Asks p.dilithium_pk_hex _ λ d.
      require-Asks p.ed25519_pk_hex _ λ e. require-Asks p.issued_at _ λ i.
        require-Asks p.expires_at _ λ x.
          require-Asks p.chain_depth _
            λ c. ensure-Asks (length p.issuer_set_hex == 3) _ (λ _. verdict-Asks _ _)

  auth-Asks : Asks (handle_set_auth_hash b email p)
  unfolding handle_set_auth_hash
  auth-Asks = require-Asks p.public_key _ λ key.
      require-Asks p.auth_hash _ (λ hash. ensure-Asks (length hash == 32) _ (λ _. verdict-Asks _ _))

  audit-Asks : Asks (handle_peer_audit_request b email p)
  unfolding handle_peer_audit_request
  audit-Asks = require-Asks p.peer_audit_request _ λ q.
      track-Asks (b.send_peer_audit_request q) _ λ r.
        >>=-Quiet (mail_answer b b.build_peer_audit_response_email r.response _) _
          (mail_answer-Quiet b b.build_peer_audit_response_email r.response _)
          λ _.
            >>=-Quiet (mail_answer b b.build_peer_audit_not_held_email r.not_held _) _
              (mail_answer-Quiet b b.build_peer_audit_not_held_email r.not_held _)
              λ _. pure-Quiet (plain email r.success r.body)

-- The types whose handlers ask Lambda in this way.
abbrev pub IsForwarded : Kind → Type 0
IsForwarded witness = ⊥
IsForwarded redeem = Unit
IsForwarded ack = Unit
IsForwarded query = Unit
IsForwarded validator_status = Unit
IsForwarded init_genesis_dev = Unit
IsForwarded vbc_sign_request = Unit
IsForwarded vbc_sign_commit = Unit
IsForwarded set_auth_hash = Unit
IsForwarded peer_audit_request = Unit
IsForwarded peer_audit_response = ⊥
IsForwarded fanout_relay = ⊥

-- A request of these types is refused as invalid with nothing changed and Lambda not asked, or asks
-- Lambda exactly once, whatever Lambda answers.
pub handle-Asked :
    (b : Backend) (handle_witness_request : AntieEmail → Act ResponsePayload) (k : Kind)
    (email : AntieEmail) (n : Node)
    → IsForwarded k
    → Asked n (handle b handle_witness_request k email n)
unfolding handle
handle-Asked b w witness email n f = elim f [ ]
handle-Asked b w redeem email n f = redeem-Asks b email (b.payload_of email.raw_ump_body) n
handle-Asked b w ack email n f = ack-Asks b email (b.payload_of email.raw_ump_body) n
handle-Asked b w query email n f = query-Asks b email (b.payload_of email.raw_ump_body) n
handle-Asked b w validator_status email n f =
    status-Asks b email (b.payload_of email.raw_ump_body) n
handle-Asked b w init_genesis_dev email n f =
    genesis-Asks b email (b.payload_of email.raw_ump_body) n
handle-Asked b w vbc_sign_request email n f = sign-Asks b email (b.payload_of email.raw_ump_body) n
handle-Asked b w vbc_sign_commit email n f = commit-Asks b email (b.payload_of email.raw_ump_body) n
handle-Asked b w set_auth_hash email n f = auth-Asks b email (b.payload_of email.raw_ump_body) n
handle-Asked b w peer_audit_request email n f =
    audit-Asks b email (b.payload_of email.raw_ump_body) n
handle-Asked b w peer_audit_response email n f = elim f [ ]
handle-Asked b w fanout_relay email n f = elim f [ ]
