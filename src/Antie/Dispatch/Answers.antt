-- ===== src/Antie/Dispatch/Answers.antt =====
-- antie/src/gateway.rs, `process_message`: which messages are answered, and how.
use axiom_carriers.Base.{
  ◌≤◌, ◌<◌, true, none, some, length, ◌≡◌, refl, arith, ◌⊎◌, inl, inr, Bool-cases,
}
use axiom_carriers.Base.Text.{Text, codes, same, same_iff}
use axiom_carriers.Base.Result.{ok, err}
use axiom_carriers.Disk.{Bytes}
use axiom_carriers.Antie.Node.{AntieError, Node}
use axiom_carriers.Antie.Response.{AntieEmail}
use axiom_carriers.Antie.Dispatch.{
  parsed, decrypt_failed, peer_audit_request, peer_audit_response, kind_of, answers_out_of_band,
  max_message_bytes, Handlers, process_message,
}

-- What makes a message a request: it is small enough, no certificate, and it can be read.
abbrev pub IsRequest : Handlers → Bytes → AntieEmail → Type 0
IsRequest h raw email =
    (length raw ≤ max_message_bytes)
    × (h.try_parse_vbc_delivery raw ≡ none)
    × (h.parse_email_outcome raw ≡ ok (parsed email))

-- A message that is too large, cannot be decrypted or cannot be parsed is dropped without a word: it
-- counts as done, nothing is mailed or written, and no handler sees it.
pub process_message_dropped :
    (h : Handlers) (raw : Bytes) (n : Node)
    → (max_message_bytes < length raw)
      ⊎ ((h.try_parse_vbc_delivery raw ≡ none)
          × ((h.parse_email_outcome raw ≡ ok decrypt_failed)
              ⊎ ((e : AntieError) × (h.parse_email_outcome raw ≡ err e))))
    → let r = process_message h raw n in (r.0 ≡ ok tt) × (r.1.mails ≡ n.mails) × (r.1.disk ≡ n.disk)
unfolding process_message
process_message_dropped h raw n (inl large) = ground arith
process_message_dropped h raw n (inr (plain, inl sealed)) = ground arith
process_message_dropped h raw n (inr (plain, inr (e, bad))) = ground arith

kind_of_band :
    (t : Text)
    → answers_out_of_band t ≡ true
    → (kind_of t ≡ some peer_audit_request) ⊎ (kind_of t ≡ some peer_audit_response)
unfolding answers_out_of_band kind_of same
kind_of_band t band = elim (Bool-cases (same t (codes "peer_audit_request"))) [
  | inl request ↦ inl (rw ((same_iff t (codes "peer_audit_request")).0 request) refl)
  | inr other ↦
      let response : same t (codes "peer_audit_response") ≡ true = ground arith in
      inr (rw ((same_iff t (codes "peer_audit_response")).0 response) refl)
]

-- An audit between validators gets no generic reply: what the handler did is all that happens.
process_message_out_of_band :
    (h : Handlers) (raw : Bytes) (email : AntieEmail) (n : Node)
    → IsRequest h raw email
    → answers_out_of_band email.message_type ≡ true
    → (process_message h raw n ≡ (ok tt, (h.handle peer_audit_request email n).1))
      ⊎ (process_message h raw n ≡ (ok tt, (h.handle peer_audit_response email n).1))
unfolding process_message
process_message_out_of_band h raw email n request band =
    ground (arith, kind_of_band email.message_type band)
