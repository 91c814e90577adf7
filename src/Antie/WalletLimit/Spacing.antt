-- ===== src/Antie/WalletLimit/Spacing.antt =====
-- antie/src/gateway.rs, `WalletRateLimiter`: requests of one wallet are a cooldown apart.
use axiom_carriers.Base.{
  ℕ, ◌+◌, ◌-◌, ◌*◌, ◌≤◌, ◌<◌, ltb, true, false, if◌then◌else◌, some, List, [], ◌∷◌, ◌≡◌, refl,
  arith, All, Bool-cases, inl, inr,
}
use axiom_carriers.Base.Text.{Text, same, same_iff, same_refl}
use axiom_carriers.Base.Dict.{get, put, get-put, get-retain}
use axiom_carriers.Antie.WalletLimit.{WalletRateLimiter, within, check_and_record, evict_stale}

-- What happens to the limiter at a time: a request of a wallet, or an eviction.
pub data Event : Type 0 where
  request : Text → ℕ → Event
  evict : ℕ → Event

abbrev pub time : Event → ℕ
time (request _ t) = t
time (evict t) = t

-- How many requests of the wallet are let through.
pub admitted : Text → WalletRateLimiter → List Event → ℕ
admitted w l [] = 0
admitted w l (request x t ∷ es) =
    let r = check_and_record l x t in
    (if r.1 then (if same x w then 1 else 0) else 0) + admitted w r.0 es
admitted w l (evict t ∷ es) = admitted w (evict_stale l t) es

admitted_within :
    (w : Text) (l : WalletRateLimiter) (t : ℕ) (es : List Event)
    → get w l.last_request ≡ some t
    → All (λ e. (t ≤ time e) × (time e < t + l.cooldown)) es
    → admitted w l es ≡ 0
unfolding admitted check_and_record evict_stale
admitted_within w l t [] e h = refl
admitted_within w l t (request x s ∷ es) e h = elim (Bool-cases (same x w)) [
  | inl mine ↦
      let here : get x l.last_request ≡ some t = rw ((same_iff x w).0 mine) e in
      let soon : ltb (s - t) l.cooldown ≡ true = ground arith in
      rw (here, soon) (omega (arith, admitted_within w l t es e h.1))
  | inr other ↦ elim (Bool-cases (within (get x l.last_request) l.cooldown s)) [
    | inl soon ↦ rw soon (omega (arith, admitted_within w l t es e h.1))
    | inr late ↦
        let l' : WalletRateLimiter = record l { last_request = put x s l.last_request } in
        let kept : get w l'.last_request ≡ some t = ground (arith, get-put x w s l.last_request) in
        rw (late, other) (omega (arith, admitted_within w l' t es kept h.1))
  ]
]
admitted_within w l t (evict s ∷ es) e h =
    admitted_within w (evict_stale l s) t es
      (get-retain (λ ts. ltb s (ts + l.cooldown * 2)) w t l.last_request e (ground arith)) h.1

-- After a request of a wallet is let through, none of its requests is let through before the cooldown
-- is over, whatever other wallets send and whenever stale entries are evicted in between.
pub check_and_record_spacing :
    (w : Text) (l : WalletRateLimiter) (t : ℕ) (es : List Event)
    → (check_and_record l w t).1 ≡ true
    → All (λ e. (t ≤ time e) × (time e < t + l.cooldown)) es
    → admitted w (check_and_record l w t).0 es ≡ 0
unfolding check_and_record
check_and_record_spacing w l t es e h =
    let fresh : within (get w l.last_request) l.cooldown t ≡ false = ground arith in
    let l' : WalletRateLimiter = record l { last_request = put w t l.last_request } in
    let kept : get w l'.last_request ≡ some t =
      ground (arith, get-put w w t l.last_request, same_refl w) in
    rw fresh (admitted_within w l' t es kept h)
