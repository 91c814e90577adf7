-- ===== src/Antie/Health/Stalls.antt =====
-- antie/src/health.rs: the verdict is right, and a stall is reported once.
use axiom_carriers.Base.{
  ℕ, ◌≤◌, max, Bool, true, false, ◌&&◌, ◌||◌, List, [], ◌∷◌, ◌++◌, map, keep, ◌≡◌, refl, arith, ◌↔◌,
  All, ap,
}
use axiom_carriers.Base.Text.{
  Text, codes, has, has-append, same, same_iff, same_refl, rsplit_once-append,
}
use axiom_carriers.Base.Decimal.{print, print-digits, has-digits, is_digit}
use axiom_carriers.Antie.SkipList.{member}
use axiom_carriers.Antie.Health.{
  HeartbeatSnapshot, Verdict, is_silent, entry, is_none, oldest, health_verdict, OnStall, name_of,
  report, stall_watchdog_tick,
}

none_silent :
    (beats : List HeartbeatSnapshot)
    → (is_none (map entry (keep is_silent beats)) ≡ true)
      ↔ All (λ b. b.age_secs ≤ b.max_silence_secs) beats
none_silent [] = (λ _. tt, λ _. refl)
none_silent (b ∷ beats) = ground (arith, none_silent beats)

weaken :
    (m n : ℕ) (beats : List HeartbeatSnapshot)
    → m ≤ n
    → All (λ b. b.age_secs ≤ m) beats
    → All (λ b. b.age_secs ≤ n) beats
weaken m n [] h a = tt
weaken m n (b ∷ beats) h a = (omega (arith, a.0), weaken m n beats h a.1)

oldest-le : (beats : List HeartbeatSnapshot) → All (λ b. b.age_secs ≤ oldest beats) beats
unfolding oldest
oldest-le [] = tt
oldest-le (b ∷ beats) = (
  omega arith,
  weaken (oldest beats) (max b.age_secs (oldest beats)) beats (omega arith) (oldest-le beats),
)

-- The endpoint says `ok` exactly when Lambda is alive and no registered loop has been silent for longer
-- than its bound.
health_verdict_iff :
    (alive : Bool) (beats : List HeartbeatSnapshot)
    → ((health_verdict alive beats).ok ≡ true)
      ↔ ((alive ≡ true) × All (λ b. b.age_secs ≤ b.max_silence_secs) beats)
unfolding health_verdict
health_verdict_iff alive beats = ground (arith, none_silent beats)

-- The name is read back from the text that names a stalled loop, spaces in it included.
pub name_of-entry : (b : HeartbeatSnapshot) → name_of (entry b) ≡ b.name
unfolding name_of has is_digit
name_of-entry b =
    let plain : has b' ' (print b.age_secs ++ codes "s") ≡ false = ground (
      arith,
      has-append b' ' (print b.age_secs) (codes "s"),
      has-digits b' ' (print b.age_secs) (print-digits b.age_secs) refl,
    ) in
    ground (arith, rsplit_once-append b' ' b.name (print b.age_secs ++ codes "s") plain)

member-append : (n : Text) (xs ys : List Text) → member n (xs ++ ys) ≡ (member n xs || member n ys)
unfolding member
member-append n [] ys = refl
member-append n (x ∷ xs) ys = ground (arith, member-append n xs ys)

member-same : (x n : Text) (xs : List Text) → same x n ≡ true → member x xs ≡ member n xs
member-same x n xs h = ap (λ t. member t xs) ((same_iff x n).0 h)

member-keep :
    (n : Text) (now xs : List Text)
    → member n (keep (λ x. member x now) xs) ≡ (member n xs && member n now)
unfolding member
member-keep n now [] = refl
member-keep n now (x ∷ xs) = ground (arith, member-keep n now xs, member-same x n now)

member-report :
    (n : Text) (reported ns : List Text)
    → member n (report reported ns).0 ≡ (member n reported || member n ns)
unfolding report member
member-report n reported [] = ground arith
member-report n reported (x ∷ ns) = ground (
  arith,
  member-report n reported ns,
  member-report n (reported ++ x ∷ []) ns,
  member-append n reported (x ∷ []),
  member-same x n reported,
)

-- After a pass the watchdog remembers exactly the loops that are stalled now: one that has recovered
-- may be reported again, and one that has not is not.
stall_watchdog_tick-reported :
    (verdict : Verdict) (policy : OnStall) (reported : List Text) (n : Text)
    → member n (stall_watchdog_tick verdict policy reported).0
      ≡ member n (map name_of verdict.stalled)
unfolding stall_watchdog_tick
stall_watchdog_tick-reported verdict policy reported n =
    let now = map name_of verdict.stalled in
    ground
      (arith, member-report n (keep (λ x. member x now) reported) now, member-keep n now reported)

report-nil :
    (reported ns : List Text)
    → All (λ n. member n reported ≡ true) ns
    → report reported ns ≡ (reported, [])
unfolding report
report-nil reported [] h = refl
report-nil reported (n ∷ ns) h = rw h.0 (report-nil reported ns h.1)

All-members :
    (xs ys : List Text)
    → ((n : Text) → member n ys ≡ true → member n xs ≡ true)
    → All (λ n. member n xs ≡ true) ys
unfolding member
All-members xs [] h = tt
All-members xs (y ∷ ys) h =
    (h y (ground (arith, same_refl y)), All-members xs ys (λ n e. h n (ground (arith, e))))

-- A loop that stays stalled is reported once: a second pass over the same verdict names nothing, and
-- does not end the process.
stall_watchdog_tick_once :
    (verdict : Verdict) (policy : OnStall) (reported : List Text)
    → let first = stall_watchdog_tick verdict policy reported in
      let second = stall_watchdog_tick verdict policy first.0 in
      (second.1 ≡ []) × (second.2 ≡ false)
unfolding stall_watchdog_tick
stall_watchdog_tick_once verdict policy reported =
    let now = map name_of verdict.stalled in
    let first = (report (keep (λ x. member x now) reported) now).0 in
    let known : (n : Text)
        → member n now ≡ true
        → member n (keep (λ x. member x now) first) ≡ true =
      λ n e.
        ground (
          arith,
          member-keep n now first,
          stall_watchdog_tick-reported verdict policy reported n,
        ) in
    let quiet =
      report-nil (keep (λ x. member x now) first) now
        (All-members (keep (λ x. member x now) first) now known) in
    ground (arith, quiet)
