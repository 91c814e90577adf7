-- ===== src/Tot/RateLimiter/Throughput.antt =====
-- tot/src/main.rs: how many calls the limiter lets through.
use axiom_carriers.Base.{ℕ, ◌+◌, if◌then◌else◌, List, [], ◌∷◌}
use axiom_carriers.Tot.RateLimiter.{RateLimiter, allow}

-- The calls that are allowed among those at the given times.
pub allowed : RateLimiter → List ℕ → ℕ
allowed l [] = 0
allowed l (t ∷ ts) = let r = allow l t in (if r.1 then 1 else 0) + allowed r.0 ts
