-- ===== src/Antie/Carrier/Smtp.antt =====
-- antie/src/carrier.rs, `smtp_carrier` and `split_carrier`: sending mail.
pub mod Session
pub mod Transparent
pub mod Answers
use axiom_carriers.Base.{
  ℕ, ◌==◌, if◌then◌else◌, Bool, true, false, not, ◌&&◌, ◌||◌, Option, none, some, List, [], ◌∷◌,
  ◌++◌,
}
use axiom_carriers.Base.Text.{Text, codes, same, rsplit_once, before}
use axiom_carriers.Base.Result.{Result, ok, err}
use axiom_carriers.Disk.{Bytes}
use axiom_carriers.Antie.Carrier.Wire.{
  Wire, Net, ◌>>=◌, ◌>>◌, pure, fail, Fail, rejected, plaintext, unreachable, unsupported,
  read_line, write_all,
}
use axiom_carriers.Antie.Carrier.Wire.Loop.{Next, again, done, loop}

pub record SmtpCarrier : Type 0 where
  pub server : Text
  pub username : Option Text
  pub password : Option Text
  pub use_tls : Bool
  pub from_address : Text

abbrev pub crlf : Bytes
crlf = b'\r' ∷ b'\n' ∷ []

-- Whether the fourth byte says that the reply goes on.
abbrev goes_on : Bytes → Bool
goes_on (_ ∷ _ ∷ _ ∷ c ∷ _) = c == b'-'
goes_on _ = false

abbrev is_positive : Text → Bool
is_positive [] = false
is_positive (c ∷ _) = c == b'2' || c == b'3'

abbrev pub replied : Bytes × Text → Net (Next (Unit {0}) (Unit {0}))
replied l =
    if goes_on l.0
    then pure (again tt)
    else if is_positive l.1
    then pure (done tt)
    else fail rejected

unfoldable pub reply_round : Unit {0} → Net (Next (Unit {0}) (Unit {0}))
reply_round _ = do l ← read_line; replied l

-- One complete reply.
unfoldable pub read_reply : Net (Unit {0})
read_reply = loop reply_round tt

abbrev pub exchange : Bytes → Net (Unit {0})
exchange bytes = do write_all bytes; read_reply

abbrev pub is_given : Option Text → Bool
is_given none = false
is_given (some _) = true

abbrev pub given : Option Text → Text
given none = []
given (some s) = s

abbrev pub has_creds : SmtpCarrier → Bool
has_creds c = is_given c.username && is_given c.password

-- `encode` is base64's.
module _ (encode : Text → Bytes) (c : SmtpCarrier) where
  unfoldable pub auth_login : Net (Unit {0})
  auth_login = do
    exchange (codes "AUTH LOGIN" ++ crlf)
    exchange (encode (given c.username) ++ crlf)
    exchange (encode (given c.password) ++ crlf)

  unfoldable pub deliver : Text → Bytes → Net (Unit {0})
  deliver to raw_email = do
    read_reply
    exchange (codes "EHLO " ++ (c.server ++ crlf))
    if has_creds c then auth_login else pure tt
    exchange (codes "MAIL FROM:<" ++ (c.from_address ++ b'>' ∷ crlf))
    exchange (codes "RCPT TO:<" ++ (to ++ b'>' ∷ crlf))
    exchange (codes "DATA" ++ crlf)
    write_all raw_email
    exchange (crlf ++ b'.' ∷ crlf)
    write_all (codes "QUIT" ++ crlf)

  -- The connection is `none` where it could not be opened.
  unfoldable pub smtp_send : Option Wire → Text → Bytes → Result Fail (Unit {0}) × Option Wire
  smtp_send connection to raw_email =
      if has_creds c && not c.use_tls then (err plaintext, none) else elim connection [
        | none ↦ (err unreachable, none)
        | some w ↦ let r = deliver to raw_email w in (r.0, some r.1)
      ]

abbrev local_domain : Text → Bool
local_domain domain = same domain (codes "axiom") || same domain (codes "axiom.internal")

unfoldable pub recipient_is_local : Text → Bool
unfolding same before rsplit_once
recipient_is_local to = elim (rsplit_once b'@' to) [
  | none ↦ false
  | some p ↦ local_domain (before b'/' p.1)
]

-- `SplitCarrier::send`, with what the two relays do.
unfoldable pub split_send :
    {A : Type 0}
    → (Text → Bytes → Result Fail A)
    → Option (Text → Bytes → Result Fail A)
    → Text
    → Bytes
    → Result Fail A
unfolding recipient_is_local
split_send local external to raw_email =
    if recipient_is_local to
    then local to raw_email
    else elim external [ some relay ↦ relay to raw_email | none ↦ err unsupported ]
