-- ===== src/Antie/Email/Headers.antt =====
-- antie/src/email.rs: the lines of the mail that `build_response` makes.
use axiom_carriers.Base.{
  true, false, ◌++◌, ◌≡◌, refl, sym, ap, ◌∙◌, ◌↔◌, inl, inr, Option, Option-cases, List, [], ◌∷◌,
  some, none, arith,
}
use axiom_carriers.Base.Text.{Text, codes, has, has-append}
use axiom_carriers.Base.{append_assoc, All, map}
use axiom_carriers.Base.Split.{split, split-append}
use axiom_carriers.Base.Result.{Result-cases, ok}
use axiom_carriers.Disk.{Bytes}
use axiom_carriers.Antie.Email.{
  mail_text, Codecs, line, reply_line, sanitize_header, validate_email_addr, subject_line,
  build_response,
}

pub has-sanitize_header-lf : (s : Text) → has b'\n' (sanitize_header s) ≡ false
unfolding has sanitize_header
has-sanitize_header-lf [] = refl
has-sanitize_header-lf (x ∷ s) = ground (arith, has-sanitize_header-lf s)

pub has-sanitize_header-cr : (s : Text) → has b'\r' (sanitize_header s) ≡ false
unfolding has sanitize_header
has-sanitize_header-cr [] = refl
has-sanitize_header-cr (x ∷ s) = ground (arith, has-sanitize_header-cr s)

-- A text without line ends is left as it is.
pub sanitize_header_plain :
    (s : Text) → has b'\r' s ≡ false → has b'\n' s ≡ false → sanitize_header s ≡ s
unfolding has sanitize_header
sanitize_header_plain [] h g = refl
sanitize_header_plain (x ∷ s) h g = ground (arith, sanitize_header_plain s)

-- The lines of a text, each with the `\r` that stands before its `\n`.
abbrev pub ended : Text → Text
ended l = l ++ b'\r' ∷ []

split-line :
    (l rest : Text) → has b'\n' l ≡ false → split b'\n' (line l rest) ≡ ended l ∷ split b'\n' rest
unfolding has
split-line l rest h =
    ap (split b'\n') (sym (append_assoc l (b'\r' ∷ []) (b'\n' ∷ rest)))
    ∙ split-append b'\n' (ended l) rest (rw (has-append b'\n' l (b'\r' ∷ []), h) refl)

-- Lines one after another.
abbrev pub written : List Text → Text
written [] = []
written (l ∷ ls) = line l (written ls)

pub split-written :
    (ls : List Text)
    → All (λ l. has b'\n' l ≡ false) ls
    → split b'\n' (written ls) ≡ map ended ls ++ ([] ∷ [])
unfolding split
split-written [] h = refl
split-written (l ∷ ls) (h, hs) =
    split-line l (written ls) h ∙ ap (◌∷◌ (ended l)) (split-written ls hs)

pub validate_email_addr_iff :
    (addr : Text)
    → (validate_email_addr addr ≡ ok tt)
      ↔ ((has b'\r' addr ≡ false) × (has b'\n' addr ≡ false) × (has b'@' addr ≡ true))
unfolding validate_email_addr has
validate_email_addr_iff [] = ground arith
validate_email_addr_iff (x ∷ s) = ground arith

abbrev pub reply_lines : Option Text → List Text → List Text
reply_lines none ls = ls
reply_lines (some id) ls = (codes "In-Reply-To: " ++ sanitize_header id) ∷ ls

-- The lines that the code means to write, for addresses `from` and `to`.
module _ (from to : Text) where
  abbrev pub response_lines : Text → Text → Text → Text → Option Text → Text → List Text
  response_lines message_type request_id msg_id date in_reply_to body =
      (codes "From: " ++ from)
      ∷ (codes "To: " ++ to)
      ∷ (codes "Subject: " ++ subject_line message_type request_id)
      ∷ (codes "Message-ID: " ++ msg_id)
      ∷ (codes "Date: " ++ date)
      ∷ codes "Content-Type: text/plain; charset=utf-8"
      ∷ reply_lines in_reply_to ([] ∷ body ∷ [])

subject_line-has : (t r : Text) → has b'\n' (subject_line t r) ≡ false
unfolding subject_line has
subject_line-has t r =
    rw
      (
        has-append b'\n' (sanitize_header t) (b'/' ∷ sanitize_header r),
        has-sanitize_header-lf t,
        has-sanitize_header-lf r,
      )
      refl

reply_lines-All :
    (in_reply_to : Option Text) (body : Text)
    → has b'\n' body ≡ false
    → All (λ l. has b'\n' l ≡ false) (reply_lines in_reply_to ([] ∷ body ∷ []))
unfolding has
reply_lines-All none body b = (refl, (b, tt))
reply_lines-All (some id) body b = (has-sanitize_header-lf id, (refl, (b, tt)))

reply-written :
    (in_reply_to : Option Text) (body : Text)
    → reply_line in_reply_to (line [] (line body []))
      ≡ written (reply_lines in_reply_to ([] ∷ body ∷ []))
reply-written none body = refl
reply-written (some id) body = refl

module _ (k : Codecs) (from to message_type request_id msg_id date : Text)
    (in_reply_to : Option Text) where
  response_lines-All :
      (body : Text)
      → has b'\n' from ≡ false
      → has b'\n' to ≡ false
      → has b'\n' msg_id ≡ false
      → has b'\n' date ≡ false
      → has b'\n' body ≡ false
      → All
          (λ l. has b'\n' l ≡ false)
          (response_lines from to message_type request_id msg_id date in_reply_to body)
  unfolding has
  response_lines-All body f t m d b = (
    f,
    (
      t,
      (
        subject_line-has message_type request_id,
        (m, (d, (refl, reply_lines-All in_reply_to body b))),
      ),
    ),
  )

  mail_text-written :
      (cbor : Option Bytes) (bytes : Bytes)
      → sanitize_header from ≡ from
      → sanitize_header to ≡ to
      → mail_text k to from msg_id date cbor message_type request_id in_reply_to bytes
        ≡ written (
            response_lines from to message_type request_id msg_id date in_reply_to
              (k.base64_encode bytes))
  mail_text-written cbor bytes f t =
      rw (f, t, reply-written in_reply_to (k.base64_encode bytes)) refl

  mail_text-lines :
      (cbor : Option Bytes) (bytes : Bytes)
      → validate_email_addr from ≡ ok tt
      → validate_email_addr to ≡ ok tt
      → has b'\n' msg_id ≡ false
      → has b'\n' date ≡ false
      → has b'\n' (k.base64_encode bytes) ≡ false
      → split b'\n' (mail_text k to from msg_id date cbor message_type request_id in_reply_to bytes)
        ≡ map ended (
            response_lines from to message_type request_id msg_id date in_reply_to
              (k.base64_encode bytes))
          ++ ([] ∷ [])
  mail_text-lines cbor bytes vf vt m d b =
      let (fr, fn, _) = (validate_email_addr_iff from).0 vf in
      let (tr, tn, _) = (validate_email_addr_iff to).0 vt in
      ap (split b'\n') (
        mail_text-written cbor bytes (sanitize_header_plain from fr fn)
          (sanitize_header_plain to tr tn))
      ∙ split-written
          (response_lines from to message_type request_id msg_id date in_reply_to
            (k.base64_encode bytes))
          (response_lines-All (k.base64_encode bytes) fn tn m d b)

  -- A mail that is built has the header lines that the code means to write, an empty line and the encoded
  -- payload, and no line more: whatever the type, the request id and the id that is answered hold,
  -- they cannot add one. The addresses stand as they were given. The made message id, the date and
  -- base64 text have no line end.
  pub build_response_lines :
      (cbor : Option Bytes) (mail : Text)
      → has b'\n' msg_id ≡ false
      → has b'\n' date ≡ false
      → ((bytes : Bytes) → has b'\n' (k.base64_encode bytes) ≡ false)
      → build_response k to from msg_id date cbor message_type request_id in_reply_to ≡ ok mail
      → (bytes : Bytes) × (cbor ≡ some bytes)
        × (split b'\n' mail
            ≡ map ended (
                response_lines from to message_type request_id msg_id date in_reply_to
                  (k.base64_encode bytes))
              ++ ([] ∷ []))
  unfolding build_response
  build_response_lines cbor mail m d plain e = elim (Result-cases (validate_email_addr to)) [
    | inr (_, n) ↦ absurd (ground (arith, e, n))
    | inl (_, t) ↦ elim (Result-cases (validate_email_addr from)) [
      | inr (_, n) ↦ absurd (ground (arith, e, t, n))
      | inl (_, f) ↦ elim (Option-cases cbor) [
        | inl n ↦ absurd (ground (arith, e, t, f, n))
        | inr (bytes, c) ↦ (
          bytes,
          c,
          ap (split b'\n') (ground (arith, e, t, f, c))
              ∙ mail_text-lines cbor bytes f t m d (plain bytes),
        )
      ]
    ]
  ]
