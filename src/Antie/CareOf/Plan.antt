-- ===== src/Antie/CareOf/Plan.antt =====
-- antie/src/care_of.rs: what the delivery decision guarantees.
use axiom_carriers.Base.{Bool, true, false, ◌++◌, ◌≢◌}
use axiom_carriers.Base.{Option, none, some, [], ◌∷◌, ◌≡◌, refl, arith, all}
use axiom_carriers.Base.{◌↔◌}
use axiom_carriers.Base.Text.{Text, codes, has, contains, rsplit_once-eq-none}
use axiom_carriers.Antie.CareOf.{
  parse_care_of, is_host_char, domain_is_depositable, deposit, recipient, plan_care_of,
  plan_receiver_delivery,
}

has-hosts : (s : Text) → all is_host_char s ≡ true → has b'/' s ≡ false
unfolding has is_host_char
has-hosts [] h = refl
has-hosts (c ∷ s) h = ground (arith, has-hosts s)

module _ (validate : Text → Bool) where
  -- The wallet id whose checksum an override claims.
  abbrev pub claimed : Text → Text
  claimed addr = elim (parse_care_of addr) [
    | some co ↦ co.inner ++ b'/' ∷ co.fingerprint
    | none ↦ addr
  ]

  -- An override is refused exactly when the wallet id that it claims does not checksum.
  refuse_iff :
      (addr wallet : Text) (supported : Bool)
      → has b'/' addr ≡ true
      → (recipient (plan_receiver_delivery validate (some addr) wallet supported) ≡ none)
        ↔ (validate (claimed addr) ≡ false)
  unfolding plan_receiver_delivery plan_care_of
  refuse_iff addr wallet supported h = (
    λ none_told. ground (arith, rsplit_once-eq-none b'/' addr),
    λ mismatch. ground (arith, rsplit_once-eq-none b'/' addr),
  )

  -- Support for pickups changes how an artifact travels, never to whom, and never loses one.
  pub recipient_support :
      (address : Option Text) (wallet : Text)
      → recipient (plan_receiver_delivery validate address wallet true)
        ≡ recipient (plan_receiver_delivery validate address wallet false)
  unfolding plan_receiver_delivery plan_care_of
  recipient_support none wallet = refl
  recipient_support (some a) wallet = ground arith

  -- A deposit names one directory below the base: no separator, no `..`, not empty. It is made only
  -- where the operator supports it.
  deposit_safe :
      (address : Option Text) (wallet domain inner : Text) (supported : Bool)
      → plan_receiver_delivery validate address wallet supported ≡ deposit domain inner
      → (supported ≡ true)
        × (has b'/' domain ≡ false)
        × (contains domain (codes "..") ≡ false)
        × (domain ≢ [])
  unfolding plan_receiver_delivery plan_care_of domain_is_depositable
  deposit_safe none wallet domain inner supported e = ground arith
  deposit_safe (some a) wallet domain inner supported e = ground (arith, has-hosts domain)
