-- ===== src/Antie/Email/Outgoing/Lines.antt =====
-- antie/src/email.rs: how the mails that the node sends are read.
use axiom_carriers.Base.{false, List, [], ◌∷◌, ◌++◌, ◌≡◌, refl, All, map}
use axiom_carriers.Base.Text.{Text, codes, has, has-append, is_whitespace}
use axiom_carriers.Base.Split.{split}
use axiom_carriers.Disk.{Bytes}
use axiom_carriers.Antie.Email.{Codecs, sanitize_header}
use axiom_carriers.Antie.Email.Headers.{ended, split-written, has-sanitize_header-lf}
use axiom_carriers.Antie.Email.Outgoing.{Made, outgoing_text}

-- What is made for a mail has no line end.
pub record IsPlain (made : Made) : Type 0 where
  pub request_id : has b'\n' made.request_id ≡ false
  pub msg_id : has b'\n' made.msg_id ≡ false
  pub date : has b'\n' made.date ≡ false

module _ (k : Codecs) (from to : Text) (made : Made) where
  abbrev pub outgoing_lines : Text → Bytes → List Text
  outgoing_lines message_type bytes =
      (codes "From: " ++ sanitize_header from)
      ∷ (codes "To: " ++ sanitize_header to)
      ∷ (codes "Subject: AXIOM/" ++ (message_type ++ b'/' ∷ made.request_id))
      ∷ (codes "Message-ID: " ++ made.msg_id)
      ∷ (codes "Date: " ++ made.date)
      ∷ codes "Content-Type: text/plain; charset=utf-8"
      ∷ []
      ∷ k.base64_encode bytes
      ∷ []

  subject-has :
      (message_type : Text)
      → has b'\n' message_type ≡ false
      → has b'\n' made.request_id ≡ false
      → has b'\n' (message_type ++ b'/' ∷ made.request_id) ≡ false
  unfolding has
  subject-has message_type t r = rw (has-append b'\n' message_type (b'/' ∷ made.request_id), t) r

  -- A mail of the node has the eight lines that the code means to write and no more, whatever the two
  -- addresses hold: an address that comes from a client cannot add a header or a body. What is made for
  -- the mail, its type and base64 text have no line end.
  pub outgoing_text-lines :
      (message_type : Text) (bytes : Bytes)
      → has b'\n' message_type ≡ false
      → IsPlain made
      → has b'\n' (k.base64_encode bytes) ≡ false
      → split b'\n' (outgoing_text k from to made message_type bytes)
        ≡ map ended (outgoing_lines message_type bytes) ++ ([] ∷ [])
  unfolding outgoing_text has
  outgoing_text-lines message_type bytes t plain b =
      split-written (outgoing_lines message_type bytes) (
        has-sanitize_header-lf from,
        (
          has-sanitize_header-lf to,
          (
            subject-has message_type t plain.request_id,
            (plain.msg_id, (plain.date, (refl, (refl, (b, tt))))),
          ),
        ),
      )

abbrev IsDense : Text → Type 0
IsDense s = All (λ c. is_whitespace c ≡ false) s
