-- ===== src/Antie/WalletLimit.antt =====
-- antie/src/gateway.rs, `WalletRateLimiter`: one witness request of a wallet in each cooldown. Times
-- are those of a clock that does not go back.
pub mod Spacing
use axiom_carriers.Base.{
  ℕ, ◌+◌, ◌-◌, ◌*◌, ltb, Bool, true, false, if◌then◌else◌, Option, none, some, List, [], ◌∷◌,
}
use axiom_carriers.Base.Text.{Text}
use axiom_carriers.Base.Dict.{get, put, retain}

pub record WalletRateLimiter : Type 0 where
  pub last_request : List (Text × ℕ)
  pub cooldown : ℕ

unfoldable pub new : ℕ → WalletRateLimiter
new cooldown_ms = record { last_request = []; cooldown = cooldown_ms * 1_000_000 }

abbrev pub within : Option ℕ → ℕ → ℕ → Bool
within none cooldown now = false
within (some last) cooldown now = ltb (now - last) cooldown

unfoldable pub check_and_record : WalletRateLimiter → Text → ℕ → WalletRateLimiter × Bool
check_and_record l wallet_id now =
    if within (get wallet_id l.last_request) l.cooldown now
    then (l, false)
    else (record l { last_request = put wallet_id now l.last_request }, true)

-- `*ts > now - cooldown * 2`
unfoldable pub evict_stale : WalletRateLimiter → ℕ → WalletRateLimiter
evict_stale l now = record l {
  last_request = retain (λ ts. ltb now (ts + l.cooldown * 2)) l.last_request;
}
