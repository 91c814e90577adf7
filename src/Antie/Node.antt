-- ===== src/Antie/Node.antt =====
-- What the gateway's handlers share (antie/src/gateway.rs, antie/src/stats.rs, antie/src/error.rs):
-- the disk, the mails that the sender has taken, and the counters. An error keeps the code of a
-- typed verdict and no other text.
use axiom_carriers.Base.{
  ℕ, ◌+◌, ◌%◌, ◌^◌, Bool, true, false, List, [], ◌∷◌, ◌≡◌, refl, ◌⊎◌, inl, inr, ◌≢◌, arith,
}
use axiom_carriers.Base.Text.{Text}
use axiom_carriers.Base.Result.{Result, ok, err}
use axiom_carriers.Disk.{Bytes, Disk}

pub data AntieError : Type 0 where
  maildir_error email_parse_error invalid_payload core_error validation_failed : AntieError
  lambda_error io_error config_error serialization_error core_ttl_expired : AntieError
  rate_limited wallet_banned : AntieError
  lambda_rejected : Text → AntieError

-- The `AtomicU64` counters that the modelled handlers touch; those of the dispatch loop are its own
-- state. `wallets_limited` is the counter `rate_limited`, and `rounds_served` counts the stamps of
-- `last_round_served_unix`.
pub record Stats : Type 0 where
  pub emails_sent : ℕ
  pub rounds_served : ℕ
  pub oversize_dropped : ℕ
  pub decrypt_fail : ℕ
  pub parse_fail : ℕ
  pub wallets_limited : ℕ
  pub ban_rejected : ℕ
  pub ban_list_unavailable : ℕ
  pub care_of_verify_rejects : ℕ
  pub care_of_deposits : ℕ
  pub care_of_default_deliveries : ℕ
  pub lambda_requests : ℕ
  pub lambda_errors : ℕ
  pub fanout_relay_refused : ℕ

-- `fetch_add(1)` wraps.
abbrev pub bump : ℕ → ℕ
bump n = (n + 1) % 2 ^ 64

-- `undispatched` lists the audits that Lambda was told did not leave. `mail_turns` says which of the
-- next mails the sender takes; with none left it takes them all.
pub record Node : Type 0 where
  pub disk : Disk
  pub mail_turns : List Bool
  pub mails : List (Text × Bytes)
  pub stats : Stats
  pub undispatched : List Text

abbrev pub Act : Type 0 → Type 0
Act A = Node → Result AntieError A × Node

abbrev send_turn : List Bool → Text → Bytes → Act (Unit {0})
send_turn [] to bytes n = (ok tt, record n { mails = (to, bytes) ∷ n.mails })
send_turn (true ∷ ts) to bytes n =
    (ok tt, record n { mails = (to, bytes) ∷ n.mails; mail_turns = ts })
send_turn (false ∷ ts) to bytes n = (err io_error, record n { mail_turns = ts })

-- `sender.send`
unfoldable pub send : Text → Bytes → Act (Unit {0})
send to bytes n = send_turn n.mail_turns to bytes n

-- What one attempt to send does to the mails; the rest of the node is not its business.
abbrev pub Sent : Text → Bytes → Node → Result AntieError (Unit {0}) × Node → Type 0
Sent to bytes n r =
    (r.1.disk ≡ n.disk)
    × (r.1.stats ≡ n.stats)
    × (((r.0 ≡ ok tt) × (r.1.mails ≡ (to, bytes) ∷ n.mails))
        ⊎ ((r.0 ≡ err io_error) × (r.1.mails ≡ n.mails)))

send_turn_lem :
    (ts : List Bool) (to : Text) (bytes : Bytes) (n : Node)
    → Sent to bytes n (send_turn ts to bytes n)
send_turn_lem [] to bytes n = (refl, refl, inl (refl, refl))
send_turn_lem (true ∷ ts) to bytes n = (refl, refl, inl (refl, refl))
send_turn_lem (false ∷ ts) to bytes n = (refl, refl, inr (refl, refl))

pub send_lem : (to : Text) (bytes : Bytes) (n : Node) → Sent to bytes n (send to bytes n)
unfolding send
send_lem to bytes n = send_turn_lem n.mail_turns to bytes n

send_turn_refused :
    (ts : List Bool) (to : Text) (bytes : Bytes) (n : Node)
    → (send_turn ts to bytes n).0 ≡ err io_error
    → ts ≢ []
send_turn_refused [] to bytes n e = absurd (ground arith)
send_turn_refused (t ∷ ts) to bytes n e = λ empty. ground arith

-- A sender with no refusal ahead takes the mail.
pub send_refused :
    (to : Text) (bytes : Bytes) (n : Node) → (send to bytes n).0 ≡ err io_error → n.mail_turns ≢ []
unfolding send
send_refused to bytes n e = send_turn_refused n.mail_turns to bytes n e
