-- ===== src/Tests/Mail.antt =====
-- antie/src/email.rs on a mail with a session, and on answers.
use axiom_carriers.Base.{
  ◌↔◌, if◌then◌else◌, ◌+◌, ◌-◌, ◌==◌, false, not, ◌++◌, ◌≡◌, refl, Option, none, some, [], ◌∷◌, map,
  arith,
}
use axiom_carriers.Base.Text.{Text, codes, has, same, lower, starts_with}
use axiom_carriers.Antie.Node.{email_parse_error}
use axiom_carriers.Base.Split.{split}
use axiom_carriers.Base.Result.{ok, err}
use axiom_carriers.Disk.{Bytes}
use axiom_carriers.Antie.CareOf.{is_empty}
use axiom_carriers.Antie.Response.{AntieEmail, session_header}
use axiom_carriers.Antie.Email.{
  custody_of, custody_headers, unwrap_by_format, extract_body, other, mail_text, Message, Codecs,
  UmpEnvelope, plain, encrypted, read_email, parse_subject, parse_email_outcome, build_response,
}
use axiom_carriers.Antie.Email.Subject.{parse_subject_iff}
use axiom_carriers.Antie.Email.Headers.{ended, response_lines}
use axiom_carriers.Antie.Carrier.Smtp.Transparent.{transmitted, read_data}
use axiom_carriers.Antie.Carrier.Smtp.Answers.{build_response_transmitted}
use axiom_carriers.Antie.Email.Outgoing.{Made, outgoing_text}
use axiom_carriers.Antie.Email.Outgoing.Lines.{IsPlain, outgoing_lines, outgoing_text-lines}
use axiom_carriers.Antie.Email.Accepted.{Accepted, parse_email_outcome-Accepted}

abbrev session_id : Text
session_id = codes "ABCDEF0123456789abcdef0123456789ABCDEF0123456789abcdef0123456789"

abbrev client_mail : Message
client_mail = record {
  from = some (codes "a@b");
  subject = some (codes "AXIOM/witness/r/1");
  header_raw = λ name. if same name session_header then some session_id else none;
  body_text = some (codes "BA C");
  body_html = none;
}

-- Letters from `A` stand for the bytes from 0.
abbrev letters : Bytes → Text
letters b = map (λ x. x + 65) b

abbrev envelope_of : Bytes → Option UmpEnvelope
envelope_of [] = none
envelope_of (x ∷ xs) = if x == 1 then some (plain xs) else none

abbrev test_codecs : Codecs
test_codecs = record {
  parse = λ raw. some client_mail;
  hex_decode = λ s. none;
  base64_decode = λ s. some (map (λ c. c - 65) s);
  base64_encode = letters;
  from_cbor = envelope_of;
  decryptor = none;
  payload_decodes = λ b. not (is_empty b);
}

letters_plain : (b : Bytes) → has b'\n' (letters b) ≡ false
unfolding has
letters_plain [] = refl
letters_plain (x ∷ b) = ground (arith, letters_plain b)

abbrev accepted_mail : AntieEmail
accepted_mail = read_email test_codecs client_mail (codes "witness") (codes "r/1") (0 ∷ 2 ∷ [])

parse_email_outcome-Accepted_example : Accepted test_codecs [] accepted_mail
unfolding parse_email_outcome same axiom_carriers.Antie.Email.decode_payload_with_context
    unwrap_by_format
parse_email_outcome-Accepted_example =
    parse_email_outcome-Accepted test_codecs [] accepted_mail refl

parse_subject_iff_example :
    (parse_subject (codes "AXIOM/witness/r/1") ≡ ok (codes "witness", codes "r/1")) ↔ (
      (codes "AXIOM/witness/r/1" ≡ codes "AXIOM/" ++ (codes "witness" ++ b'/' ∷ codes "r/1"))
      × (has b'/' (codes "witness") ≡ false))
parse_subject_iff_example =
    parse_subject_iff (codes "AXIOM/witness/r/1") (codes "witness") (codes "r/1")

-- A type that tries to add a header.
abbrev forged : Text
forged = codes "x" ++ b'\r' ∷ b'\n' ∷ codes "Bcc: c@d"

abbrev forged_mail : Text
forged_mail =
    mail_text test_codecs (codes "c@d") (codes "v@w") (codes "<1@axiom>") (codes "today")
      (some (7 ∷ [])) forged (codes "r/1") (some (codes "<0@b>")) (7 ∷ [])

letters_undotted : (b : Bytes) → starts_with (ended (letters b)) (codes ".") ≡ false
unfolding starts_with
letters_undotted [] = refl
letters_undotted (x ∷ b) = ground arith

build_response_transmitted_example :
    (bytes : Bytes) × (some (7 ∷ []) ≡ some bytes)
    × (read_data (split b'\n' (transmitted forged_mail))
        ≡ some (
            map ended (
              response_lines
                (codes "v@w")
                (codes "c@d")
                forged
                (codes "r/1")
                (codes "<1@axiom>")
                (codes "today")
                (some (codes "<0@b>"))
                (letters bytes))
            ++ ((b'\r' ∷ []) ∷ [])))
unfolding has build_response
build_response_transmitted_example =
    build_response_transmitted test_codecs (codes "v@w") (codes "c@d") forged (codes "r/1")
      (codes "<1@axiom>") (codes "today") (some (codes "<0@b>")) (some (7 ∷ [])) forged_mail refl
      refl letters_plain letters_undotted refl

-- The id of a session is kept in lower case, so it names the session that the tunnel made.
custody_of-lower : custody_of custody_headers client_mail ≡ some (session_header, lower session_id)
unfolding custody_of same axiom_carriers.Antie.Email.custody_id
custody_of-lower = refl

-- A client's request that is not in an envelope is refused, and so is an envelope between validators.
unwrap_by_format_request :
    unwrap_by_format test_codecs (codes "witness") (5 ∷ []) ≡ err (other email_parse_error)
unfolding unwrap_by_format same
unwrap_by_format_request = refl

unwrap_by_format_gossip :
    unwrap_by_format test_codecs (codes "fanout_relay") (1 ∷ 5 ∷ []) ≡ err (other email_parse_error)
unfolding unwrap_by_format same
unwrap_by_format_gossip = refl

-- The text of a page is read without its tags.
extract_body_page :
    extract_body (record client_mail { body_text = none; body_html = some (codes "<p> QUJD </p>") })
    ≡ ok (codes " QUJD ")
unfolding extract_body
extract_body_page = refl

abbrev made : Made
made = record { request_id = codes "7"; msg_id = codes "<2@axiom>"; date = codes "today" }

made-IsPlain : IsPlain made
unfolding has
made-IsPlain = record { request_id = refl; msg_id = refl; date = refl }

abbrev forged_address : Text
forged_address = codes "c@d" ++ b'\r' ∷ b'\n' ∷ codes "Bcc: e@f"

outgoing_text-lines_example :
    split b'\n'
      (outgoing_text test_codecs (codes "v@w") forged_address made (codes "cheque") (7 ∷ []))
    ≡ map ended
        (outgoing_lines test_codecs (codes "v@w") forged_address made (codes "cheque") (7 ∷ []))
      ++ ([] ∷ [])
unfolding has
outgoing_text-lines_example =
    outgoing_text-lines test_codecs (codes "v@w") forged_address made (codes "cheque") (7 ∷ []) refl
      made-IsPlain refl

-- Codecs under which a signature is its own encoding.
abbrev certificate_codecs : Codecs
certificate_codecs = record test_codecs {
  parse = λ raw. some (record client_mail { body_text = some (codes "HI" ++ b'\r' ∷ b'\n' ∷ []) });
}
