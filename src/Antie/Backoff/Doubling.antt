-- ===== src/Antie/Backoff/Doubling.antt =====
-- antie/src/gateway.rs, `carrier_backoff`: the wait doubles up to the cap.
use axiom_carriers.Base.{ℕ, ◌+◌, ◌*◌, ◌^◌, ◌≤◌, ◌<◌, ◌≡◌, arith, min, zero, suc}
use native.Mathlib.Nat.{pow-suc}
use axiom_carriers.Antie.Backoff.{backoff_max, carrier_backoff}

pow_double : (base n : ℕ) → base * 2 ^ (n + 1) ≡ 2 * (base * 2 ^ n)
pow_double base n = let e : n + 1 ≡ suc n = omega arith in rw (e, pow-suc 2 n) (grind arith)

carrier_backoff_lem :
    (base failures : ℕ)
    → base ≤ backoff_max
    → carrier_backoff base failures ≡ min (base * 2 ^ min failures 16) backoff_max
unfolding carrier_backoff
carrier_backoff_lem base zero small = ground arith
carrier_backoff_lem base (suc n) small = ground arith

-- With an interval of at most the cap, each further failure doubles the wait until the cap is
-- reached, up to the sixteenth.
carrier_backoff-doubles :
    (base failures : ℕ)
    → base ≤ backoff_max
    → failures < 16
    → carrier_backoff base (failures + 1) ≡ min (2 * carrier_backoff base failures) backoff_max
carrier_backoff-doubles base failures small h =
    let inner : min failures 16 ≡ failures = omega arith in
    let outer : min (failures + 1) 16 ≡ failures + 1 = omega arith in
    let now = carrier_backoff_lem base failures small in
    let next = carrier_backoff_lem base (failures + 1) small in
    rw (now, inner, next, outer) (omega (arith, pow_double base failures))
