-- ===== src/Antie/Email.antt =====
-- antie/src/email.rs: what a mail must be to reach a handler, and the mail that answers it.
--
-- The MIME, base64, hex and CBOR libraries and the decryptor are parameters: a message is what
-- `MessageParser` returns for it, and `Codecs` has the other calls. A mail that is built is the text
-- whose UTF-8 form the code returns.
pub mod Subject
pub mod Headers
pub mod Outgoing
pub mod Body
pub mod Session
pub mod Accepted
use axiom_carriers.Base.{
  ℕ, Bool, true, false, not, ◌&&◌, ◌||◌, ◌==◌, leb, if◌then◌else◌, Option, none, some, List, [],
  ◌∷◌, ◌++◌, map, all, keep, length,
}
use axiom_carriers.Base.Text.{Text, codes, same, has, split_once, trim, lower, is_whitespace}
use axiom_carriers.Base.Split.{split, join_pieces}
use axiom_carriers.Base.Result.{Result, ok, err, ◌>>=◌}
use axiom_carriers.Disk.{Bytes}
use axiom_carriers.Antie.CareOf.{is_empty}
use axiom_carriers.Antie.Node.{AntieError, email_parse_error, serialization_error}
use axiom_carriers.Antie.Response.{AntieEmail, session_header}
use axiom_carriers.Antie.Dispatch.{ParseOutcome, parsed, decrypt_failed}

abbrev subject_parts : List Text → Result AntieError (Text × Text)
subject_parts (a ∷ t ∷ i ∷ rest) =
    if same a (codes "AXIOM") then ok (t, join_pieces b'/' (i ∷ rest)) else err email_parse_error
subject_parts _ = err email_parse_error

unfoldable pub parse_subject : Text → Result AntieError (Text × Text)
parse_subject subject = subject_parts (split b'/' subject)

abbrev pub custody_headers : List Text
custody_headers = session_header ∷ []

abbrev pub is_hex_digit : ℕ → Bool
is_hex_digit c =
    (leb b'0' c && leb c b'9') || (leb b'A' c && leb c b'F') || (leb b'a' c && leb c b'f')

-- The id of a custody header. Sixty-four hexadecimal digits are as many bytes.
unfoldable pub custody_id : Text → Option Text
unfolding trim lower
custody_id raw =
    let id = trim raw in if length id == 64 && all is_hex_digit id then some (lower id) else none

-- What `MessageParser` returns: the first addresses, and the headers and bodies by name.
pub record Message : Type 0 where
  pub from : Option Text
  pub subject : Option Text
  pub header_raw : Text → Option Text
  pub body_text : Option Text
  pub body_html : Option Text

abbrev or_later : Text → Option Text → Option (Text × Text) → Option (Text × Text)
or_later name (some id) later = some (name, id)
or_later name none later = later

abbrev custody_id_of : Option Text → Option Text
custody_id_of none = none
custody_id_of (some raw) = custody_id raw

-- `find_map` over the header names
unfoldable pub custody_of : List Text → Message → Option (Text × Text)
custody_of [] m = none
custody_of (name ∷ names) m = or_later name (custody_id_of (m.header_raw name)) (custody_of names m)

abbrev tag_free : Text → Text
tag_free s = elim (split_once b'>' s) [ none ↦ trim s | some p ↦ trim p.1 ]

-- `replace('<', " <")`
abbrev spaced : Text → Text
spaced [] = []
spaced (x ∷ xs) = let rest = spaced xs in if x == b'<' then b' ' ∷ b'<' ∷ rest else x ∷ rest

unfoldable pub extract_body : Message → Result AntieError Text
unfolding split split_once trim
extract_body m = elim m.body_text [
  | some body ↦ ok body
  | none ↦ elim m.body_html [
    | some body ↦ ok (join_pieces b' ' (map tag_free (split b'<' (spaced body))))
    | none ↦ err email_parse_error
  ]
]

-- `UmpEnvelope`; the sealed form is kept as its bytes.
pub data UmpEnvelope : Type 0 where
  plain : Bytes → UmpEnvelope
  encrypted : Bytes → UmpEnvelope

pub data DecodeError : Type 0 where
  unopened : DecodeError
  other : AntieError → DecodeError

unfoldable pub requires_envelope : Text → Bool
requires_envelope t = not (
    same t (codes "peer_audit_request")
    || same t (codes "peer_audit_response")
    || same t (codes "fanout_relay"))

-- The libraries: `hex::decode`, base64 both ways, `UmpEnvelope::from_cbor`, the opening of a sealed
-- envelope, and whether a body decodes as an `AntiePayload`.
pub record Codecs : Type 0 where
  pub parse : Bytes → Option Message
  pub hex_decode : Text → Option Bytes
  pub base64_decode : Text → Option Bytes
  pub base64_encode : Bytes → Text
  pub from_cbor : Bytes → Option UmpEnvelope
  pub decryptor : Option (Bytes → Option Bytes)
  pub payload_decodes : Bytes → Bool

module _ (k : Codecs) where
  abbrev unseal : Option (Bytes → Option Bytes) → Bytes → Result DecodeError Bytes
  unseal none sealed = err unopened
  unseal (some d) sealed = elim (d sealed) [ some b ↦ ok b | none ↦ err unopened ]

  abbrev enveloped : Option UmpEnvelope → Result DecodeError Bytes
  enveloped (some (plain b)) = ok b
  enveloped (some (encrypted sealed)) = unseal k.decryptor sealed
  enveloped none = err (other email_parse_error)

  abbrev bare : Bytes → Option UmpEnvelope → Result DecodeError Bytes
  bare decoded (some _) = err (other email_parse_error)
  bare decoded none = ok decoded

  unfoldable pub unwrap_by_format : Text → Bytes → Result DecodeError Bytes
  unfolding requires_envelope
  unwrap_by_format message_type decoded =
      if requires_envelope message_type
      then enveloped (k.from_cbor decoded)
      else bare decoded (k.from_cbor decoded)

  abbrev decode_payload_inner : Bytes → Result DecodeError Bytes
  decode_payload_inner b = if k.payload_decodes b then ok b else err (other email_parse_error)

  abbrev decoded_from : Text → Option Bytes → Result DecodeError Bytes
  decoded_from message_type none = err (other email_parse_error)
  decoded_from message_type (some []) = err (other email_parse_error)
  decoded_from message_type (some (x ∷ xs)) =
      unwrap_by_format message_type (x ∷ xs) >>= decode_payload_inner

  unfoldable pub decode_payload_with_context : Text → Text → Result DecodeError Bytes
  unfolding is_whitespace
  decode_payload_with_context message_type body =
      decoded_from message_type (k.base64_decode (keep (λ c. not (is_whitespace c)) body))

  -- `hex::decode` takes ASCII only, so the characters of what it takes are its bytes.
  abbrev correlate_id : Text → Option Bytes
  correlate_id trimmed =
      if length trimmed == 64
      then elim (k.hex_decode trimmed) [
        | none ↦ none
        | some bytes ↦ if length bytes == 32 then some bytes else none
      ]
      else none

  unfoldable pub correlate_of : Option Text → Option Bytes
  unfolding trim
  correlate_of none = none
  correlate_of (some raw) = correlate_id (trim raw)

  abbrev text_or_empty : Option Text → Text
  text_or_empty none = []
  text_or_empty (some s) = s

  abbrev pub read_email : Message → Text → Text → Bytes → AntieEmail
  read_email m message_type request_id body = record {
    from = text_or_empty m.from;
    message_type = message_type;
    request_id = request_id;
    raw_ump_body = body;
    uncle_correlate = correlate_of (m.header_raw (codes "X-UNCLE-Correlate"));
    custody = custody_of custody_headers m;
  }

  abbrev outcome : Message → Text × Text → Result DecodeError Bytes → Result AntieError ParseOutcome
  outcome m (message_type, request_id) (ok body) =
      ok (parsed (read_email m message_type request_id body))
  outcome m subject (err unopened) = ok decrypt_failed
  outcome m subject (err (other e)) = err e

  abbrev of_message : Option Message → Result AntieError ParseOutcome
  of_message none = err email_parse_error
  of_message (some m) = parse_subject (text_or_empty m.subject) >>= λ s.
      extract_body m >>= λ body. outcome m s (decode_payload_with_context s.0 body)

  unfoldable pub parse_email_outcome : Bytes → Result AntieError ParseOutcome
  unfolding parse_subject extract_body custody_of correlate_of
  parse_email_outcome raw = of_message (k.parse raw)

unfoldable pub sanitize_header : Text → Text
sanitize_header value = keep (λ c. not (c == b'\r') && not (c == b'\n')) value

unfoldable pub validate_email_addr : Text → Result AntieError (Unit {0})
unfolding has
validate_email_addr addr =
    if has b'\r' addr || has b'\n' addr
    then err email_parse_error
    else if is_empty addr || not (has b'@' addr)
    then err email_parse_error
    else ok tt

-- A header line, before what the mail still holds.
abbrev pub line : Text → Text → Text
line l rest = l ++ b'\r' ∷ b'\n' ∷ rest

unfoldable pub subject_line : Text → Text → Text
unfolding sanitize_header
subject_line message_type request_id =
    codes "AXIOM/" ++ (sanitize_header message_type ++ b'/' ∷ sanitize_header request_id)

abbrev reply_line : Option Text → Text → Text
reply_line none rest = rest
reply_line (some id) rest = line (codes "In-Reply-To: " ++ sanitize_header id) rest

-- What the mail takes from outside: the two addresses, the message id and the date that are made for
-- it, and its payload encoded by `ciborium`, if that works.
module _ (k : Codecs) (to from msg_id date : Text) (cbor : Option Bytes) where
  abbrev pub mail_text : Text → Text → Option Text → Bytes → Text
  mail_text message_type request_id in_reply_to bytes =
      line (codes "From: " ++ sanitize_header from) (
        line (codes "To: " ++ sanitize_header to) (
          line (codes "Subject: " ++ subject_line message_type request_id) (
            line (codes "Message-ID: " ++ msg_id) (
              line (codes "Date: " ++ date) (
                line (codes "Content-Type: text/plain; charset=utf-8")
                  (reply_line in_reply_to (line [] (line (k.base64_encode bytes) []))))))))

  abbrev encoded_as : Text → Text → Option Text → Option Bytes → Result AntieError Text
  encoded_as message_type request_id in_reply_to none = err serialization_error
  encoded_as message_type request_id in_reply_to (some bytes) =
      ok (mail_text message_type request_id in_reply_to bytes)

  unfoldable pub build_response : Text → Text → Option Text → Result AntieError Text
  unfolding validate_email_addr sanitize_header subject_line
  build_response message_type request_id in_reply_to = validate_email_addr to >>= λ _.
      validate_email_addr from >>= λ _. encoded_as message_type request_id in_reply_to cbor
