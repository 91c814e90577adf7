-- ===== src/Antie/Email/Outgoing.antt =====
-- antie/src/email.rs: the mails that the node sends of its own accord: cheques, certificates, notices
-- and audits, and the certificate that is read back.
pub mod Lines
use axiom_carriers.Base.{
  ℕ, if◌then◌else◌, Bool, true, false, not, Option, none, some, List, [], ◌∷◌, ◌++◌, keep,
}
use axiom_carriers.Base.Text.{Text, codes, same, is_whitespace}
use axiom_carriers.Base.Result.{Result, ok, err}
use axiom_carriers.Disk.{Bytes}
use axiom_carriers.Antie.Node.{AntieError, invalid_payload, serialization_error}
use axiom_carriers.Antie.Email.{Codecs, Message, line, sanitize_header}

-- What is made for a mail: a fresh id for its subject, its message id, and its date.
pub record Made : Type 0 where
  pub request_id : Text
  pub msg_id : Text
  pub date : Text

module _ (k : Codecs) (from to : Text) (made : Made) where
  unfoldable pub outgoing_text : Text → Bytes → Text
  unfolding sanitize_header
  outgoing_text message_type bytes = line (codes "From: " ++ sanitize_header from) (
      line (codes "To: " ++ sanitize_header to) (
        line (codes "Subject: AXIOM/" ++ (message_type ++ b'/' ∷ made.request_id)) (
          line (codes "Message-ID: " ++ made.msg_id) (
            line (codes "Date: " ++ made.date) (
              line (codes "Content-Type: text/plain; charset=utf-8")
                (line [] (line (k.base64_encode bytes) [])))))))

  -- The payload as `ciborium` encodes it, if that works.
  abbrev pub outgoing : Text → Option Bytes → Result AntieError Text
  outgoing message_type none = err serialization_error
  outgoing message_type (some bytes) = ok (outgoing_text message_type bytes)

  -- `origin_matches` is Core's check that the origin gives the cheque's id.
  unfoldable pub build_cheque_delivery_email : Bool → Option Bytes → Result AntieError Text
  unfolding outgoing_text
  build_cheque_delivery_email origin_matches cbor =
      if not origin_matches then err invalid_payload else outgoing (codes "cheque") cbor

  abbrev pub build_scar_consent_email : Option Bytes → Result AntieError Text
  build_scar_consent_email cbor = outgoing (codes "scar_consent") cbor

  abbrev pub build_peer_audit_request_email : Option Bytes → Result AntieError Text
  build_peer_audit_request_email cbor = outgoing (codes "peer_audit_request") cbor

  abbrev pub build_peer_audit_response_email : Option Bytes → Result AntieError Text
  build_peer_audit_response_email cbor = outgoing (codes "peer_audit_response") cbor

  -- The same type as an answer.
  abbrev pub build_peer_audit_not_held_email : Option Bytes → Result AntieError Text
  build_peer_audit_not_held_email cbor = outgoing (codes "peer_audit_response") cbor

  -- `into_writer` encodes the magic text and the signature.
  unfoldable pub build_vbc_delivery_email :
      (Text × Bytes → Option Bytes) → Bytes → Result AntieError Text
  unfolding outgoing_text
  build_vbc_delivery_email into_writer signature =
      outgoing (codes "vbc") (into_writer (codes "AXIOM-VBC-SIG/1", signature))

abbrev pub text_of : Option Message → Option Text
text_of none = none
text_of (some m) = m.body_text

abbrev pub decoded : Codecs → Option Text → Option Bytes
decoded k none = none
decoded k (some body) = k.base64_decode (keep (λ c. not (is_whitespace c)) body)

abbrev pub read_by : (Bytes → Option (Text × Bytes)) → Option Bytes → Option (Text × Bytes)
read_by from_reader none = none
read_by from_reader (some bytes) = from_reader bytes

abbrev pub signed : Option (Text × Bytes) → Option Bytes
signed none = none
signed (some (magic, signature)) =
    if same magic (codes "AXIOM-VBC-SIG/1") then some signature else none

-- A certificate is known by its body alone.
unfoldable pub try_parse_vbc_delivery :
    Codecs → (Bytes → Option (Text × Bytes)) → Bytes → Option Bytes
unfolding is_whitespace same
try_parse_vbc_delivery k from_reader raw =
    signed (read_by from_reader (decoded k (text_of (k.parse raw))))
