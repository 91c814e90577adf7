-- ===== src/Antie/Config.antt =====
-- antie/src/config.rs, `AntieConfig::load`, and antie/src/carrier.rs, `CarriersConfig`: which
-- configurations start the gateway, and where a mailbox's password comes from.
pub mod Accepts
pub mod Secrets
use axiom_carriers.Base.{
  ℕ, ◌+◌, if◌then◌else◌, ltb, leb, Bool, true, false, not, ◌&&◌, ◌||◌, Option, none, some, List, [],
  ◌∷◌, ◌++◌, map, any, length,
}
use axiom_carriers.Base.Text.{Text, codes, same}
use axiom_carriers.Base.Result.{Result, ok, err}

pub record MaildirConfig : Type 0 where
  pub inbox : Text
  pub outbox : Text

pub record ImapConfig : Type 0 where
  pub enabled : Bool
  pub server : Text
  pub port : ℕ
  pub username : Text
  pub password : Text
  pub use_tls : Bool
  pub inbox_folder : Text
  pub use_idle : Bool

-- Without the threshold of the spam filter, which nothing here reads.
pub record Pop3Config : Type 0 where
  pub enabled : Bool
  pub server : Text
  pub port : ℕ
  pub username : Text
  pub password : Text
  pub use_tls : Bool

pub record CarriersConfig : Type 0 where
  pub maildir : Option MaildirConfig
  pub imap : List ImapConfig
  pub pop3 : List Pop3Config
  pub advertise : List Text

-- The texts of `ConfigError`.
pub data Refusal : Type 0 where
  no_email_carrier no_maildir cleartext_imap too_many_accounts polls_too_fast : Refusal

abbrev pub is_empty : {A : Type 0} → List A → Bool
is_empty [] = true
is_empty (_ ∷ _) = false

abbrev pub is_some : {A : Type 0} → Option A → Bool
is_some none = false
is_some (some _) = true

-- `is_loopback_ip` is `IpAddr`'s parser with `is_loopback`.
abbrev pub host_is_loopback : (Text → Bool) → Text → Bool
host_is_loopback is_loopback_ip host = same host (codes "localhost") || is_loopback_ip host

abbrev pub max_inbound_accounts : ℕ
max_inbound_accounts = 5

abbrev pub has_network_pull : CarriersConfig → Bool
has_network_pull c = not (is_empty c.imap) || not (is_empty c.pop3)

unfoldable pub validate_inbound_count : CarriersConfig → Result Refusal (Unit {0})
validate_inbound_count c =
    if ltb max_inbound_accounts (length c.imap + length c.pop3)
    then err too_many_accounts
    else ok tt

abbrev pub is_cleartext : (Text → Bool) → ImapConfig → Bool
is_cleartext is_loopback_ip i = not i.use_tls && not (host_is_loopback is_loopback_ip i.server)

unfoldable pub validate : (Text → Bool) → CarriersConfig → Result Refusal (Unit {0})
validate is_loopback_ip c =
    if not (is_some c.maildir || has_network_pull c)
    then err no_email_carrier
    else if has_network_pull c && not (is_some c.maildir)
    then err no_maildir
    else if any (is_cleartext is_loopback_ip) c.imap
    then err cleartext_imap
    else ok tt

abbrev pub any_enabled : CarriersConfig → Bool
any_enabled c = is_some c.maildir || has_network_pull c

abbrev pub to_uri_list : CarriersConfig → Text → List Text
to_uri_list c identity_email =
    (if is_some c.maildir || has_network_pull c
      then (codes "email:" ++ identity_email) ∷ []
      else [])
    ++ c.advertise

abbrev pub min_network_poll_ms : ℕ
min_network_poll_ms = 500

unfoldable pub validate_poll_rate : CarriersConfig → ℕ → Result Refusal (Unit {0})
validate_poll_rate c poll_interval_ms =
    if has_network_pull c && ltb poll_interval_ms min_network_poll_ms
    then err polls_too_fast
    else ok tt

pub record MailCred : Type 0 where
  pub username : Text
  pub password : Text

abbrev pub fill_pop3 : MailCred → Pop3Config → Pop3Config
fill_pop3 cred c =
    if same c.username cred.username then record c { password = cred.password } else c

abbrev pub fill_imap : MailCred → ImapConfig → ImapConfig
fill_imap cred c =
    if same c.username cred.username then record c { password = cred.password } else c

-- The inbound part of the secrets, each credential in turn.
unfoldable pub apply_mail_secrets : List MailCred → CarriersConfig → CarriersConfig
apply_mail_secrets [] c = c
apply_mail_secrets (cred ∷ creds) c =
    apply_mail_secrets creds
      (record c { pop3 = map (fill_pop3 cred) c.pop3; imap = map (fill_imap cred) c.imap })

abbrev and_then :
    Result Refusal (Unit {0}) → Result Refusal CarriersConfig → Result Refusal CarriersConfig
and_then (ok _) r = r
and_then (err e) r = err e

-- The checks of `load`, in their order.
unfoldable pub accepted : (Text → Bool) → ℕ → CarriersConfig → Result Refusal CarriersConfig
unfolding validate validate_inbound_count validate_poll_rate
accepted is_loopback_ip poll_interval_ms c =
    and_then (validate is_loopback_ip c) (
      and_then (validate_inbound_count c) (and_then (validate_poll_rate c poll_interval_ms) (ok c)))

-- `load`, on a configuration and secrets that could be read.
unfoldable pub load :
    (Text → Bool) → List MailCred → ℕ → CarriersConfig → Result Refusal CarriersConfig
unfolding accepted apply_mail_secrets
load is_loopback_ip secrets poll_interval_ms config =
    accepted is_loopback_ip poll_interval_ms (apply_mail_secrets secrets config)
