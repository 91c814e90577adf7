-- ===== src/Antie/Email/Accepted.antt =====
-- antie/src/email.rs: which mails `parse_email_outcome` passes to the handlers.
use axiom_carriers.Base.{
  keep, not, true, false, ◌++◌, ◌≡◌, refl, sym, ap, ◌∙◌, inl, inr, Option, Option-cases, Bool-cases,
  [], ◌∷◌, some, none, arith,
}
use axiom_carriers.Base.Text.{Text, codes, has, is_whitespace}
use axiom_carriers.Base.Result.{Result, ok, err, Result-cases}
use axiom_carriers.Disk.{Bytes}
use axiom_carriers.Antie.Response.{AntieEmail}
use axiom_carriers.Antie.Dispatch.{parsed}
use axiom_carriers.Antie.Email.{
  read_email, outcome, custody_headers, DecodeError, unopened, other, decode_payload_inner,
  decoded_from, Codecs, Message, parse_email_outcome, parse_subject, extract_body,
  decode_payload_with_context, unwrap_by_format, text_or_empty,
}
use axiom_carriers.Antie.Email.Subject.{parse_subject_iff}
use axiom_carriers.Antie.Email.Session.{SafeSession, custody_of-SafeSession}
use axiom_carriers.Antie.Email.Body.{Yields, unwrap_by_format_iff}

module _ (k : Codecs) where
  abbrev Opened : Text → Option Bytes → Bytes → Type 0
  Opened t o b =
      (decoded : Bytes) × (o ≡ some decoded) × Yields k t decoded b × (k.payload_decodes b ≡ true)

  decode_payload_inner-ok :
      (a b : Bytes) → decode_payload_inner k a ≡ ok b → (a ≡ b) × (k.payload_decodes b ≡ true)
  decode_payload_inner-ok a b e = elim (Bool-cases (k.payload_decodes a)) [
    | inr n ↦ absurd (ground (arith, e, n))
    | inl y ↦ ground (arith, e, y)
  ]

  decoded_from-Opened :
      (t : Text) (o : Option Bytes) (b : Bytes) → decoded_from k t o ≡ ok b → Opened t o b
  decoded_from-Opened t none b e = absurd (ground arith)
  decoded_from-Opened t (some []) b e = absurd (ground arith)
  decoded_from-Opened t (some (x ∷ xs)) b e = elim (Result-cases (unwrap_by_format k t (x ∷ xs))) [
    | inr (_, n) ↦ absurd (ground (arith, e, n))
    | inl (a, u) ↦
        let (same, d) = decode_payload_inner-ok a b (rw u at e) in
        (x ∷ xs, refl, (unwrap_by_format_iff k t (x ∷ xs) b).0 (u ∙ ap ok same), d)
  ]

-- What a mail is that reaches a handler: its subject names its type and request id, its body was
-- opened as the type requires and is a payload, and its session, if it has one, is safe.
pub record Accepted (k : Codecs) (raw : Bytes) (email : AntieEmail) : Type 0 where
  pub message : Message
  pub is_mail : k.parse raw ≡ some message
  pub subject_is :
      text_or_empty k message.subject
      ≡ codes "AXIOM/" ++ (email.message_type ++ b'/' ∷ email.request_id)
  pub type_plain : has b'/' email.message_type ≡ false
  pub body : Text
  pub has_body : extract_body message ≡ ok body
  pub decoded : Bytes
  pub is_base64 : k.base64_decode (keep (λ c. not (is_whitespace c)) body) ≡ some decoded
  pub opened : Yields k email.message_type decoded email.raw_ump_body
  pub is_payload : k.payload_decodes email.raw_ump_body ≡ true
  pub safe : SafeSession email.custody

module _ (k : Codecs) (raw : Bytes) (email : AntieEmail) where
  outcome-Accepted :
      (m : Message) (t id body : Text) (r : Result DecodeError Bytes)
      → k.parse raw ≡ some m
      → parse_subject (text_or_empty k m.subject) ≡ ok (t, id)
      → extract_body m ≡ ok body
      → decode_payload_with_context k t body ≡ r
      → outcome k m (t, id) r ≡ ok (parsed email)
      → Accepted k raw email
  unfolding decode_payload_with_context
  outcome-Accepted m t id body (err unopened) p s x d e = absurd (ground arith)
  outcome-Accepted m t id body (err (other _)) p s x d e = absurd (ground arith)
  outcome-Accepted m t id body (ok b) p s x d e =
      let same : read_email k m t id b ≡ email = ground (arith, e) in
      let (subject, separate) = (parse_subject_iff (text_or_empty k m.subject) t id).0 s in
      let (decoded, is_base64, opened, is_payload) = decoded_from-Opened k t _ b d in
      rw (sym same) (record {
        message = m;
        is_mail = p;
        subject_is = subject;
        type_plain = separate;
        body = body;
        has_body = x;
        decoded = decoded;
        is_base64 = is_base64;
        opened = opened;
        is_payload = is_payload;
        safe = custody_of-SafeSession custody_headers m;
      })

  -- A mail that is accepted has the subject, the body and the session that a handler may rely on.
  pub parse_email_outcome-Accepted :
      parse_email_outcome k raw ≡ ok (parsed email) → Accepted k raw email
  unfolding parse_email_outcome
  parse_email_outcome-Accepted e = elim (Option-cases (k.parse raw)) [
    | inl n ↦ absurd (ground (arith, e, n))
    | inr (m, p) ↦ elim (Result-cases (parse_subject (text_or_empty k m.subject))) [
      | inr (_, n) ↦ absurd (ground (arith, e, p, n))
      | inl ((t, id), s) ↦ elim (Result-cases (extract_body m)) [
        | inr (_, n) ↦ absurd (ground (arith, e, p, s, n))
        | inl (body, x) ↦ outcome-Accepted m t id body _ p s x refl (ground (arith, e, p, s, x))
      ]
    ]
  ]
