-- ===== src/Antie/Config/Accepts.antt =====
-- antie/src/config.rs, `AntieConfig::load`: the configurations that start the gateway.
use axiom_carriers.Base.{
  ℕ, ◌+◌, ◌≤◌, Bool, true, false, List, [], ◌∷◌, ◌≡◌, refl, ◌↔◌, ◌⊎◌, inl, inr, arith, All, any,
  length, Bool-cases,
}
use axiom_carriers.Base.Text.{Text}
use axiom_carriers.Base.Result.{ok}
use axiom_carriers.Antie.Config.{
  ImapConfig, CarriersConfig, is_some, host_is_loopback, is_cleartext, has_network_pull,
  max_inbound_accounts, min_network_poll_ms, validate, validate_inbound_count, validate_poll_rate,
  accepted,
}

-- The password of this account goes over TLS, or stays on this machine.
abbrev pub IsGuarded : (Text → Bool) → ImapConfig → Type 0
IsGuarded is_loopback_ip i = (i.use_tls ≡ true) ⊎ (host_is_loopback is_loopback_ip i.server ≡ true)

-- What the gateway needs of its configuration.
pub record IsSound (is_loopback_ip : Text → Bool) (poll_interval_ms : ℕ) (c : CarriersConfig)
    : Type 0 where
  pub funnel : is_some c.maildir ≡ true
  pub guarded : All (IsGuarded is_loopback_ip) c.imap
  pub few : length c.imap + length c.pop3 ≤ max_inbound_accounts
  pub slow : has_network_pull c ≡ true → min_network_poll_ms ≤ poll_interval_ms

All-IsGuarded :
    (p : Text → Bool) (is : List ImapConfig)
    → any (is_cleartext p) is ≡ false
    → All (IsGuarded p) is
All-IsGuarded p [] h = tt
All-IsGuarded p (i ∷ is) h = elim (Bool-cases i.use_tls) [
  | inl tls ↦ (inl tls, All-IsGuarded p is (ground (arith, h)))
  | inr bare ↦ (inr (ground (arith, h, bare)), All-IsGuarded p is (ground (arith, h)))
]

none_cleartext :
    (p : Text → Bool) (is : List ImapConfig)
    → All (IsGuarded p) is
    → any (is_cleartext p) is ≡ false
none_cleartext p [] h = refl
none_cleartext p (i ∷ is) (inl tls, hs) = ground (arith, tls, none_cleartext p is hs)
none_cleartext p (i ∷ is) (inr home, hs) = ground (arith, home, none_cleartext p is hs)

-- The checks pass just for these configurations. In particular the check for some email carrier never
-- suffices without a maildir, and a disabled account counts as any other.
pub accepted_iff :
    (p : Text → Bool) (ms : ℕ) (c : CarriersConfig) → (accepted p ms c ≡ ok c) ↔ IsSound p ms c
unfolding accepted validate validate_inbound_count validate_poll_rate
accepted_iff p ms c = (
  λ e. record {
    funnel = ground (arith, e);
    guarded = All-IsGuarded p c.imap (ground (arith, e));
    few = ground (arith, e);
    slow = λ h. ground (arith, e, h);
  },
  λ s. elim (Bool-cases (has_network_pull c)) [
    | inl pulls ↦ ground (arith, s.funnel, s.few, s.slow pulls, none_cleartext p c.imap s.guarded)
    | inr none_pulls ↦
        ground (arith, s.funnel, s.few, none_pulls, none_cleartext p c.imap s.guarded)
  ],
)
