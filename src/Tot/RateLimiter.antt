-- ===== src/Tot/RateLimiter.antt =====
-- tot/src/main.rs: the fixed-window limiter of a connection. Times are nanoseconds of a clock that
-- does not go back; `count` is a `u32` and wraps.
pub mod Throughput
use axiom_carriers.Base.{ℕ, ◌+◌, ◌-◌, ◌%◌, ◌^◌, Bool, true, leb, ◌==◌, if◌then◌else◌}

pub record RateLimiter : Type 0 where
  pub max_per_sec : ℕ
  pub window_start : ℕ
  pub count : ℕ

abbrev pub second : ℕ
second = 1_000_000_000

unfoldable pub new : ℕ → ℕ → RateLimiter
new max_per_sec now = record { max_per_sec = max_per_sec; window_start = now; count = 0 }

-- `duration_since` is 0 for an earlier time.
abbrev in_window : RateLimiter → ℕ → RateLimiter
in_window l now =
    if leb second (now - l.window_start) then record l { window_start = now; count = 0 } else l

abbrev count_one : RateLimiter → RateLimiter
count_one l = record l { count = (l.count + 1) % 2 ^ 32 }

unfoldable pub allow : RateLimiter → ℕ → RateLimiter × Bool
allow l now =
    let l' = count_one (in_window l now) in
    if l.max_per_sec == 0 then (l, true) else (l', leb l'.count l'.max_per_sec)
