-- ===== src/Antie/Config/Secrets.antt =====
-- antie/src/config.rs, `apply_mail_secrets`: which password an account logs in with.
use axiom_carriers.Base.{
  ℕ, if◌then◌else◌, Bool, List, [], ◌∷◌, ◌≡◌, refl, sym, ap, ◌∙◌, ◌↔◌, map, arith, inl, inr,
  Bool-cases,
}
use axiom_carriers.Base.Text.{Text, same}
use axiom_carriers.Base.Result.{ok}
use axiom_carriers.Antie.Config.{
  ImapConfig, Pop3Config, CarriersConfig, MailCred, fill_imap, fill_pop3, accepted,
  apply_mail_secrets, load,
}
use axiom_carriers.Antie.Config.Accepts.{IsSound, accepted_iff}

-- The password of the last credential with this name, or else the one that is given.
unfoldable pub password_for : List MailCred → Text → Text → Text
password_for [] name given = given
password_for (cred ∷ creds) name given =
    let last = password_for creds name given in
    let found = password_for creds name cred.password in
    if same name cred.username then found else last

abbrev pub with_imap_password : List MailCred → ImapConfig → ImapConfig
with_imap_password creds c = record c { password = password_for creds c.username c.password }

abbrev pub with_pop3_password : List MailCred → Pop3Config → Pop3Config
with_pop3_password creds c = record c { password = password_for creds c.username c.password }

imap_step :
    (cred : MailCred) (creds : List MailCred) (c : ImapConfig)
    → with_imap_password creds (fill_imap cred c) ≡ with_imap_password (cred ∷ creds) c
unfolding password_for
imap_step cred creds c = elim (Bool-cases (same c.username cred.username)) [
  | inl h ↦ ground (arith, h)
  | inr h ↦ ground (arith, h)
]

pop3_step :
    (cred : MailCred) (creds : List MailCred) (c : Pop3Config)
    → with_pop3_password creds (fill_pop3 cred c) ≡ with_pop3_password (cred ∷ creds) c
unfolding password_for
pop3_step cred creds c = elim (Bool-cases (same c.username cred.username)) [
  | inl h ↦ ground (arith, h)
  | inr h ↦ ground (arith, h)
]

module _ {A : Type 0} (f g k : A → A) (step : (x : A) → f (g x) ≡ k x) where
  map_step : (xs : List A) → map f (map g xs) ≡ map k xs
  map_step [] = refl
  map_step (x ∷ xs) = λ i. step x i ∷ map_step xs i

module _ {A : Type 0} (f : A → A) (same_as : (x : A) → x ≡ f x) where
  map_id : (xs : List A) → xs ≡ map f xs
  map_id [] = refl
  map_id (x ∷ xs) = λ i. same_as x i ∷ map_id xs i

abbrev pub filled : List MailCred → CarriersConfig → CarriersConfig
filled creds c = record c {
  imap = map (with_imap_password creds) c.imap;
  pop3 = map (with_pop3_password creds) c.pop3;
}

-- The secrets change the passwords of the accounts whose user they name, and nothing else.
apply_mail_secrets_fills :
    (creds : List MailCred) (c : CarriersConfig) → apply_mail_secrets creds c ≡ filled creds c
unfolding apply_mail_secrets password_for
apply_mail_secrets_fills [] c = λ i. record c {
  imap = map_id (with_imap_password []) (λ x. refl) c.imap i;
  pop3 = map_id (with_pop3_password []) (λ x. refl) c.pop3 i;
}
apply_mail_secrets_fills (cred ∷ creds) c =
    apply_mail_secrets_fills creds
      (record c { pop3 = map (fill_pop3 cred) c.pop3; imap = map (fill_imap cred) c.imap })
    ∙ λ i. record c {
      imap =
          map_step (with_imap_password creds) (fill_imap cred) (with_imap_password (cred ∷ creds))
            (imap_step cred creds) c.imap i;
      pop3 =
          map_step (with_pop3_password creds) (fill_pop3 cred) (with_pop3_password (cred ∷ creds))
            (pop3_step cred creds) c.pop3 i;
    }

module _ (p : Text → Bool) (ms : ℕ) where
  accepted_same : (c c' : CarriersConfig) → accepted p ms c ≡ ok c' → c' ≡ c
  unfolding accepted
  accepted_same c c' e = ground (arith, e)

  -- The gateway starts on a configuration and its secrets just when the accounts, filled in, are sound:
  -- there is a maildir, every IMAP login is guarded, there are at most five accounts, and polling a
  -- network is no faster than the floor. What it starts with are these accounts, each with the password
  -- of the last credential of its user, or its own.
  pub load_iff :
      (creds : List MailCred) (c c' : CarriersConfig)
      → (load p creds ms c ≡ ok c') ↔ ((c' ≡ filled creds c) × IsSound p ms c')
  unfolding load
  load_iff creds c c' =
      let fills = apply_mail_secrets_fills creds c in
      (
        λ e.
            let is_same = accepted_same (apply_mail_secrets creds c) c' e in
            (is_same ∙ fills, (accepted_iff p ms c').0 (ap (accepted p ms) is_same ∙ e)),
        λ (is, sound). ap (accepted p ms) (fills ∙ sym is) ∙ (accepted_iff p ms c').1 sound,
      )
