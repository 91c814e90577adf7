-- ===== src/Tests/Loops.antt =====
-- Tests of the loops' bookkeeping: antie/src/stats.rs, antie/src/health.rs and the limiter and the backoff of
-- antie/src/gateway.rs.
use axiom_carriers.Base.{◌*◌, List, [], ◌∷◌, ◌≡◌, refl}
use axiom_carriers.Base.Text.{codes, same}
use axiom_carriers.Antie.Backoff.{Gauges, backoff_max, second, carrier_backoff}
use axiom_carriers.Antie.WalletLimit.{WalletRateLimiter, check_and_record}
use axiom_carriers.Antie.WalletLimit.Spacing.{
  Event, request, evict, admitted, check_and_record_spacing,
}
use native.Mathlib.Omega.{arith}

-- Five seconds double to ten, and reach the cap with the ninth failure.
carrier_backoff_cap : carrier_backoff (5 * second) 9 ≡ backoff_max
unfolding carrier_backoff
carrier_backoff_cap = refl

abbrev idle_gauges : Gauges
idle_gauges = record {
  carrier_failures_total = 0;
  carriers_in_backoff = 0;
  carrier_consecutive_failures = 0;
}

abbrev failing_gauges : Gauges
failing_gauges = record {
  carrier_failures_total = 1;
  carriers_in_backoff = 1;
  carrier_consecutive_failures = 1;
}

abbrev limiter : WalletRateLimiter
limiter = record { last_request = (codes "w", 3) ∷ []; cooldown = 100 }

abbrev events : List Event
events =
    request (codes "w") 1010 ∷ request (codes "v") 1020 ∷ evict 1030 ∷ request (codes "w") 1099 ∷ []

check_and_record_spacing_example :
    admitted (codes "w") (check_and_record limiter (codes "w") 1000).0 events ≡ 0
unfolding check_and_record same
check_and_record_spacing_example = check_and_record_spacing (codes "w") limiter 1000 events refl (
  (omega arith, omega arith),
  ((omega arith, omega arith), ((omega arith, omega arith), ((omega arith, omega arith), tt))),
)
