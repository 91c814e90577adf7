-- ===== src/Antie/Backoff/Streaks.antt =====
-- antie/src/stats.rs, `note_carrier_attempt`: the gauges over all loops.
use axiom_carriers.Base.{
  ℕ, ◌+◌, ◌≤◌, ◌==◌, if◌then◌else◌, ◌≡◌, List, [], ◌∷◌, ◌++◌, All, Bool, zero, suc,
}
use axiom_carriers.Antie.Backoff.{Gauges, note_carrier_attempt}

-- The loops that are in backoff.
pub failing : List ℕ → ℕ
failing [] = 0
failing (f ∷ fs) = (if f == 0 then 0 else 1) + failing fs

abbrev pub idle : ℕ → List ℕ
idle zero = []
idle (suc n) = 0 ∷ idle n

-- The loops run side by side: each attempt is one loop's, in any order.
pub data Run : Gauges → List ℕ → Type 0 where
  start :
      (total : ℕ) (loops : ℕ)
      → Run
          (record {
            carrier_failures_total = total;
            carriers_in_backoff = 0;
            carrier_consecutive_failures = 0;
          })
          (idle loops)
  attempt :
      (g : Gauges) (before : List ℕ) (failures : ℕ) (after : List ℕ) (reached : Bool)
      → Run g (before ++ failures ∷ after)
      → Run
          (note_carrier_attempt g failures reached).0
          (before ++ (note_carrier_attempt g failures reached).1 ∷ after)

abbrev pub Consistent : Gauges → List ℕ → Type 0
Consistent g fs =
    (g.carriers_in_backoff ≡ failing fs)
    × All (λ f. f ≤ g.carrier_consecutive_failures) fs
    × (failing fs ≡ 0 → g.carrier_consecutive_failures ≡ 0)
