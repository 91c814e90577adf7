-- ===== src/Antie/Backoff.antt =====
-- antie/src/gateway.rs, `carrier_backoff`, and antie/src/stats.rs, `note_carrier_attempt`: how a
-- carrier that cannot reach its server waits, and what the gauges show of it. Times are nanoseconds.
pub mod Doubling
pub mod Streaks
use axiom_carriers.Base.{
  ℕ, ◌+◌, ◌-◌, ◌*◌, ◌%◌, ◌^◌, Bool, true, false, ltb, ◌==◌, if◌then◌else◌, Option, none, some, min,
  max,
}

abbrev pub second : ℕ
second = 1_000_000_000

-- `CARRIER_BACKOFF_MAX`
abbrev pub backoff_max : ℕ
backoff_max = 30 * 60 * second

-- A `Duration` has its seconds in a `u64`.
abbrev pub duration_bound : ℕ
duration_bound = 2 ^ 64 * second

unfoldable pub carrier_backoff : ℕ → ℕ → ℕ
carrier_backoff base failures =
    let product = base * 2 ^ min failures 16 in
    if failures == 0
    then base
    else min (if ltb product duration_bound then product else backoff_max) backoff_max

pub record Gauges : Type 0 where
  pub carrier_failures_total : ℕ
  pub carriers_in_backoff : ℕ
  pub carrier_consecutive_failures : ℕ

-- `fetch_sub` gives the value before it; the gauge is emptied when the last loop leaves.
abbrev leave : Gauges → Gauges
leave g = record g {
  carriers_in_backoff = (g.carriers_in_backoff + 2 ^ 64 - 1) % 2 ^ 64;
  carrier_consecutive_failures =
      if g.carriers_in_backoff == 1 then 0 else g.carrier_consecutive_failures;
}

abbrev join_streak : Gauges → ℕ → Gauges
join_streak g failures =
    let next = min (failures + 1) (2 ^ 32 - 1) in
    record g {
      carriers_in_backoff =
          if failures == 0 then (g.carriers_in_backoff + 1) % 2 ^ 64 else g.carriers_in_backoff;
      carrier_failures_total = (g.carrier_failures_total + 1) % 2 ^ 64;
      carrier_consecutive_failures = max g.carrier_consecutive_failures next;
    }

-- The gauges and the loop's own streak after an attempt.
unfoldable pub note_carrier_attempt : Gauges → ℕ → Bool → Gauges × ℕ
note_carrier_attempt g failures true = if failures == 0 then (g, failures) else (leave g, 0)
note_carrier_attempt g failures false = (join_streak g failures, min (failures + 1) (2 ^ 32 - 1))
