-- ===== src/Antie/Handlers/Audits.antt =====
-- antie/src/gateway.rs, `handle_peer_audit_request`: an answer to an audit is mailed, never dropped.
use axiom_carriers.Base.{false, none, some, [], ◌∷◌, ◌≡◌, ◌⊎◌, inl, inr, arith}
use axiom_carriers.Base.Text.{Text, trim}
use axiom_carriers.Base.Result.{ok}
use axiom_carriers.Disk.{Bytes}
use axiom_carriers.Antie.CareOf.{is_empty}
use axiom_carriers.Antie.Node.{Node, send}
use axiom_carriers.Antie.Response.{AntieEmail}
use axiom_carriers.Antie.Handlers.{
  Payload, Backend, Audited, ◌>>=◌, track_lambda, plain, handle_peer_audit_request,
}

-- Lambda's answer, of either kind, with the mail that is built for it.
abbrev pub Answers : Backend → Text → Bytes → Bytes → Audited → Type 0
Answers b to answer mail r =
    ((r.response ≡ some answer)
      × (r.not_held ≡ none)
      × (b.build_peer_audit_response_email b.identity to answer ≡ ok mail))
    ⊎ ((r.response ≡ none)
        × (r.not_held ≡ some answer)
        × (b.build_peer_audit_not_held_email b.identity to answer ≡ ok mail))

-- What Lambda answers to an audit, the record or that it holds none, is mailed to the address that it
-- knows of the requester, or else to the address that the request came from, if that is not blank and
-- the sender takes the mail: no answer is left out for want of a known address.
pub handle_peer_audit_request_answered :
    (b : Backend) (email : AntieEmail) (p : Payload) (n : Node) (request answer mail : Bytes)
    (to : Text) (r : Audited)
    → p.peer_audit_request ≡ some request
    → b.send_peer_audit_request request ≡ ok r
    → (r.requester_email ≡ some to)
      ⊎ ((r.requester_email ≡ none) × (is_empty (trim email.from) ≡ false) × (to ≡ trim email.from))
    → Answers b to answer mail r
    → n.mail_turns ≡ []
    → let done = handle_peer_audit_request b email p n in
      (done.0 ≡ ok (plain email r.success r.body)) × (done.1.mails ≡ (to, mail) ∷ n.mails)
unfolding handle_peer_audit_request ◌>>=◌ track_lambda send trim
handle_peer_audit_request_answered b email p n request answer mail to r q lambda (inl known)
      (inl (held, other, built)) takes =
    ground (arith, q, lambda, held, other, known, built, takes)
handle_peer_audit_request_answered b email p n request answer mail to r q lambda (inl known)
      (inr (other, held, built)) takes =
    ground (arith, q, lambda, held, other, known, built, takes)
handle_peer_audit_request_answered b email p n request answer mail to r q lambda
      (inr (unknown, from, same_to)) (inl (held, other, built)) takes =
    ground (arith, q, lambda, held, other, unknown, from, same_to, built, takes)
handle_peer_audit_request_answered b email p n request answer mail to r q lambda
      (inr (unknown, from, same_to)) (inr (other, held, built)) takes =
    ground (arith, q, lambda, held, other, unknown, from, same_to, built, takes)
