-- ===== src/Antie/Carrier/Smtp/Session.antt =====
-- antie/src/carrier.rs, `SmtpCarrier::send`: what a mail that counts as sent has told the server.
use axiom_carriers.Base.{List, [], ◌∷◌, ◌++◌, arith, if◌then◌else◌}
use axiom_carriers.Base.Text.{Text, codes}
use axiom_carriers.Disk.{Bytes}
use axiom_carriers.Antie.Carrier.Wire.{Wire, pure, fail, rejected}
use axiom_carriers.Antie.Carrier.Wire.Loop.{
  again, done, loop-Ends, Progress, line-Progress, if-Held,
}
use axiom_carriers.Antie.Carrier.Wire.Script.{Total}
use axiom_carriers.Antie.Carrier.Smtp.{
  SmtpCarrier, crlf, replied, reply_round, read_reply, given, has_creds, goes_on, is_positive,
}

reply-Progress : (s : Unit {0}) (w : Wire) → Progress w (reply_round s w)
unfolding reply_round
reply-Progress s w = line-Progress replied w (λ l w'.
    if-Held {S = Unit {0}} {A = Unit {0}} (goes_on l.0) (pure (again tt))
      (if is_positive l.1 then pure (done tt) else fail rejected) w' (omega arith)
      (if-Held {S = Unit {0}} {A = Unit {0}} (is_positive l.1) (pure (done tt)) (fail rejected) w'
        tt (λ e. cc)))

pub read_reply-Total : Total read_reply
unfolding read_reply
read_reply-Total = loop-Ends reply_round reply-Progress tt

module _ (encode : Text → Bytes) (c : SmtpCarrier) where
  abbrev pub auth_script : List Bytes
  auth_script =
      (codes "AUTH LOGIN" ++ crlf)
      ∷ (encode (given c.username) ++ crlf)
      ∷ (encode (given c.password) ++ crlf)
      ∷ []

  -- What a session says, in order.
  abbrev pub script : Text → Bytes → List Bytes
  script to raw_email =
      (codes "EHLO " ++ (c.server ++ crlf))
      ∷ ((if has_creds c then auth_script else [])
          ++ ((codes "MAIL FROM:<" ++ (c.from_address ++ b'>' ∷ crlf))
              ∷ (codes "RCPT TO:<" ++ (to ++ b'>' ∷ crlf))
              ∷ (codes "DATA" ++ crlf)
              ∷ raw_email
              ∷ (crlf ++ b'.' ∷ crlf)
              ∷ (codes "QUIT" ++ crlf)
              ∷ []))
