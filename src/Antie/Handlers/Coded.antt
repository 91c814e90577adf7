-- ===== src/Antie/Handlers/Coded.antt =====
-- antie/src/gateway.rs: what a handler's reply says of its request, and what it has counted.
use axiom_carriers.Base.{if◌then◌else◌, Option, none, some, ◌≡◌}
use axiom_carriers.Base.Text.{Text, codes}
use axiom_carriers.Base.Result.{Result, ok, err}
use axiom_carriers.Antie.Node.{AntieError, Node, Act}
use axiom_carriers.Antie.Response.{AntieEmail, ResponsePayload}
use axiom_carriers.Antie.Dispatch.{
  Kind, witness, redeem, ack, query, validator_status, init_genesis_dev, vbc_sign_request,
  vbc_sign_commit, set_auth_hash, peer_audit_request, peer_audit_response, fanout_relay,
}
use axiom_carriers.Antie.Handlers.{Payload, Backend, ◌>>=◌}

module _ {A B : Type 0} (m : Act A) (f : A → Act B) (n : Node) where
  pub bind-ok : (a : A) → (m n).0 ≡ ok a → (m >>= f) n ≡ f a (m n).1
  unfolding ◌>>=◌
  bind-ok a e = λ i. elim (e i) [ ok b ↦ f b (m n).1 | err x ↦ (err x, (m n).1) ]

  pub bind-err : (x : AntieError) → (m n).0 ≡ err x → (m >>= f) n ≡ (err x, (m n).1)
  unfolding ◌>>=◌
  bind-err x e = λ i. elim (e i) [ ok b ↦ f b (m n).1 | err y ↦ (err y, (m n).1) ]

abbrev value_or : {A : Type 0} → Result AntieError A → A → A
value_or (ok a) d = a
value_or (err e) d = d

-- Whatever a step gives satisfies `Q`.
abbrev Gives : {A : Type 0} → (A → Type 0) → Act A → Type 0
Gives {A} Q m = (n : Node) (a : A) → (m n).0 ≡ ok a → Q a

-- The code that a refusal of this type carries; the audits, and the status, carry none.
abbrev pub code_of : Kind → Option Text
code_of witness = none
code_of redeem = some (codes "REDEEM_FAILED")
code_of ack = some (codes "ACK_FAILED")
code_of query = some (codes "NOT_FOUND")
code_of validator_status = none
code_of init_genesis_dev = some (codes "GENESIS_FAILED")
code_of vbc_sign_request = some (codes "VBC_SIGN_FAILED")
code_of vbc_sign_commit = some (codes "VBC_SIGN_COMMIT_FAILED")
code_of set_auth_hash = some (codes "SET_AUTH_HASH_FAILED")
code_of peer_audit_request = none
code_of peer_audit_response = none
code_of fanout_relay = some (codes "FANOUT_RELAY_REFUSED")

-- A reply is to its request, and has a code just when it is a refusal.
abbrev pub IsCoded : Kind → AntieEmail → ResponsePayload → Type 0
IsCoded k email r =
    (r.request_id ≡ email.request_id) × (r.rejection_code ≡ (if r.success then none else code_of k))

module _ (b : Backend) (email : AntieEmail) (p : Payload) where
  abbrev Coded : Kind → Act ResponsePayload → Type 0
  Coded k m = Gives (IsCoded k email) m
