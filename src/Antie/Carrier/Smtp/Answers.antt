-- ===== src/Antie/Carrier/Smtp/Answers.antt =====
-- antie/src/email.rs, `build_response`, sent by antie/src/carrier.rs, `SmtpCarrier::send`.
use axiom_carriers.Base.{
  false, Option, none, some, List, [], ◌∷◌, ◌++◌, ◌≡◌, refl, sym, ap, ◌∙◌, All, map,
}
use axiom_carriers.Base.Text.{Text, codes, has, starts_with}
use axiom_carriers.Base.Split.{split, join_pieces, joined, join_pieces-split, split-All}
use axiom_carriers.Base.Result.{ok}
use axiom_carriers.Disk.{Bytes}
use axiom_carriers.Antie.Email.{Codecs, build_response}
use axiom_carriers.Antie.Email.Headers.{ended, reply_lines, response_lines, build_response_lines}
use axiom_carriers.Antie.Carrier.Smtp.Transparent.{
  transmitted, read_data, IsPlain, lines_text, read_data-transmitted,
}

joined_end : (ls : List Bytes) → joined b'\n' (ls ++ ([] ∷ [])) ≡ b'\n' ∷ lines_text ls
joined_end [] = refl
joined_end (l ∷ ls) = ap (λ t. b'\n' ∷ (l ++ t)) (joined_end ls)

join_pieces_end : (ls : List Bytes) → join_pieces b'\n' (ls ++ ([] ∷ [])) ≡ lines_text ls
join_pieces_end [] = refl
join_pieces_end (l ∷ ls) = ap (λ t. l ++ t) (joined_end ls)

-- A text is its lines.
text_of_lines : (s : Text) (ls : List Bytes) → split b'\n' s ≡ ls ++ ([] ∷ []) → s ≡ lines_text ls
text_of_lines s ls e =
    sym (join_pieces-split b'\n' s) ∙ ap (join_pieces b'\n') e ∙ join_pieces_end ls

abbrev NoDot : Bytes → Type 0
NoDot l = starts_with (ended l) (codes ".") ≡ false

IsPlain-lines :
    (ls : List Bytes) (last : Bytes)
    → All (λ l. has b'\n' l ≡ false) (map ended ls ++ (last ∷ []))
    → All NoDot ls
    → All IsPlain (map ended ls)
IsPlain-lines [] last h d = tt
IsPlain-lines (l ∷ ls) last (h, hs) (d, ds) = ((d, h), IsPlain-lines ls last hs ds)

reply_no_dots :
    (in_reply_to : Option Text) (ls : List Text)
    → All NoDot ls
    → All NoDot (reply_lines in_reply_to ls)
unfolding starts_with
reply_no_dots none ls h = h
reply_no_dots (some id) ls h = (refl, h)

module _ (k : Codecs) (from to message_type request_id msg_id date : Text)
    (in_reply_to : Option Text) where
  no_dots :
      (body : Text)
      → starts_with (ended body) (codes ".") ≡ false
      → All NoDot (response_lines from to message_type request_id msg_id date in_reply_to body)
  unfolding starts_with
  no_dots body b = (
    refl,
    (
      refl,
      (refl, (refl, (refl, (refl, reply_no_dots in_reply_to ([] ∷ body ∷ []) (refl, (b, tt)))))),
    ),
  )

  -- An answer that the gateway builds survives the sending: a server reads it as the lines that were
  -- meant, with one empty line behind them. Base64 text has no line end and does not start with a dot.
  pub build_response_transmitted :
      (cbor : Option Bytes) (mail : Text)
      → has b'\n' msg_id ≡ false
      → has b'\n' date ≡ false
      → ((bytes : Bytes) → has b'\n' (k.base64_encode bytes) ≡ false)
      → ((bytes : Bytes) → starts_with (ended (k.base64_encode bytes)) (codes ".") ≡ false)
      → build_response k to from msg_id date cbor message_type request_id in_reply_to ≡ ok mail
      → (bytes : Bytes) × (cbor ≡ some bytes)
        × (read_data (split b'\n' (transmitted mail))
            ≡ some (
                map ended (
                  response_lines from to message_type request_id msg_id date in_reply_to
                    (k.base64_encode bytes))
                ++ ((b'\r' ∷ []) ∷ [])))
  build_response_transmitted cbor mail m d plain undotted e =
      let (bytes, given, cut) =
        build_response_lines k from to message_type request_id msg_id date in_reply_to cbor mail m d
          plain e in
      let lines =
        response_lines from to message_type request_id msg_id date in_reply_to
          (k.base64_encode bytes) in
      (
        bytes,
        given,
        ap (λ t. read_data (split b'\n' (transmitted t))) (text_of_lines mail (map ended lines) cut)
            ∙ read_data-transmitted (map ended lines) (
                IsPlain-lines lines [] (rw cut at (split-All b'\n' mail))
                  (no_dots (k.base64_encode bytes) (undotted bytes))),
      )
