-- ===== src/Antie/Health.antt =====
-- antie/src/health.rs and the heartbeats of antie/src/stats.rs: a loop that stops is named.
pub mod Stalls
use axiom_carriers.Base.{
  ℕ, ◌-◌, ltb, max, Bool, true, false, not, ◌&&◌, if◌then◌else◌, Option, none, some, List, [], ◌∷◌,
  ◌++◌, map, keep,
}
use axiom_carriers.Base.Text.{Text, codes, rsplit_once}
use axiom_carriers.Base.Decimal.{print}
use axiom_carriers.Antie.SkipList.{member}

pub record LoopHeartbeat : Type 0 where
  pub name : Text
  pub max_silence_secs : ℕ
  pub last_beat : ℕ

pub record HeartbeatSnapshot : Type 0 where
  pub name : Text
  pub age_secs : ℕ
  pub max_silence_secs : ℕ

unfoldable pub heartbeat_snapshot : List LoopHeartbeat → ℕ → List HeartbeatSnapshot
heartbeat_snapshot [] now = []
heartbeat_snapshot (h ∷ hs) now =
    record { name = h.name; age_secs = now - h.last_beat; max_silence_secs = h.max_silence_secs }
    ∷ heartbeat_snapshot hs now

pub record Verdict : Type 0 where
  pub ok : Bool
  pub lambda_alive : Bool
  pub stalled : List Text
  pub oldest_heartbeat_age_secs : ℕ

abbrev pub is_silent : HeartbeatSnapshot → Bool
is_silent b = ltb b.max_silence_secs b.age_secs

-- `"{name} {age}s"`
abbrev pub entry : HeartbeatSnapshot → Text
entry b = b.name ++ b' ' ∷ (print b.age_secs ++ codes "s")

abbrev pub is_none : List Text → Bool
is_none [] = true
is_none (_ ∷ _) = false

unfoldable pub oldest : List HeartbeatSnapshot → ℕ
oldest [] = 0
oldest (b ∷ bs) = max b.age_secs (oldest bs)

unfoldable pub health_verdict : Bool → List HeartbeatSnapshot → Verdict
unfolding oldest
health_verdict alive beats =
    let stalled = map entry (keep is_silent beats) in
    record {
      ok = alive && is_none stalled;
      lambda_alive = alive;
      stalled = stalled;
      oldest_heartbeat_age_secs = oldest beats;
    }

pub data OnStall : Type 0 where
  notify_only notify_and_restart : OnStall

abbrev pub restarts : OnStall → Bool
restarts notify_only = false
restarts notify_and_restart = true

unfoldable pub name_of : Text → Text
name_of s = elim (rsplit_once b' ' s) [ some (n, _) ↦ n | none ↦ s ]

-- The names reported and the fresh ones, after a pass over the stalled.
unfoldable pub report : List Text → List Text → List Text × List Text
report reported [] = (reported, [])
report reported (n ∷ ns) =
    let again = report reported ns in
    let first = report (reported ++ n ∷ []) ns in
    if member n reported then again else (first.0, n ∷ first.1)

-- The names reported, the fresh ones, and whether the process exits with `STALL_EXIT_CODE`.
unfoldable pub stall_watchdog_tick : Verdict → OnStall → List Text → List Text × List Text × Bool
unfolding name_of report
stall_watchdog_tick verdict policy reported =
    let now_stalled = map name_of verdict.stalled in
    let r = report (keep (λ n. member n now_stalled) reported) now_stalled in
    (r.0, r.1, not (is_none r.1) && restarts policy)
