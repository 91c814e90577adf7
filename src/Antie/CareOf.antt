-- ===== src/Antie/CareOf.antt =====
-- antie/src/care_of.rs: care-of addresses and the one delivery decision.
pub mod Parse
pub mod Plan
pub mod Deposit
use axiom_carriers.Base.{Bool, true, false, not, ◌&&◌, ◌||◌, ◌==◌, leb, if◌then◌else◌, ◌++◌}
use axiom_carriers.Base.{Option, none, some, [], ◌∷◌, ℕ, all}
use axiom_carriers.Base.Text.{Text, codes, has, contains, lower, split_once, rsplit_once}
use axiom_carriers.Base.Maybe.{◌>>=◌}

pub record CareOf : Type 0 where
  pub inner : Text
  pub pickup : Text
  pub fingerprint : Text

abbrev pub is_empty : Text → Bool
is_empty [] = true
is_empty (_ ∷ _) = false

-- The text up to the second `@` is the inner address.
unfoldable pub parse_care_of : Text → Option CareOf
parse_care_of addr = do
  (addressed, fp) ← rsplit_once b'/' addr
  (user, after_first) ← split_once b'@' addressed
  (host, pickup) ← split_once b'@' after_first
  if is_empty fp || is_empty pickup
      then none
      else some (record { inner = user ++ b'@' ∷ host; pickup = pickup; fingerprint = fp })

abbrev domain_of : Text → Option (Text × Text) → Text
domain_of pickup none = lower pickup
domain_of pickup (some (_, domain)) = lower domain

unfoldable pub pickup_domain : Text → Text
pickup_domain pickup = domain_of pickup (rsplit_once b'@' pickup)

unfoldable pub is_host_char : ℕ → Bool
is_host_char c =
    (leb b'a' c && leb c b'z')
    || (leb b'A' c && leb c b'Z')
    || (leb b'0' c && leb c b'9')
    || c == b'.'
    || c == b'-'
    || c == b'['
    || c == b']'
    || c == b':'

unfoldable pub domain_is_depositable : Text → Bool
unfolding is_host_char
domain_is_depositable domain =
    not (is_empty domain) && not (contains domain (codes "..")) && all is_host_char domain

-- Why nothing is delivered; the source's message is not kept.
pub data Reason : Type 0 where
  no_receiver care_of_mismatch override_mismatch : Reason

pub data DeliveryPlan : Type 0 where
  email : Text → DeliveryPlan
  deposit : Text → Text → DeliveryPlan
  refuse : Reason → DeliveryPlan

abbrev email_before : Reason → Option (Text × Text) → DeliveryPlan
email_before why none = refuse why
email_before why (some (address, _)) = email address

-- `axiom_core_logic::wallet_id::validate_wallet_id` is Core's.
module _ (validate_wallet_id : Text → Bool) where
  unfoldable pub plan_care_of : CareOf → Bool → DeliveryPlan
  plan_care_of co pickup_supported =
      let domain = pickup_domain co.pickup in
      if not (validate_wallet_id (co.inner ++ b'/' ∷ co.fingerprint))
      then refuse care_of_mismatch
      else if pickup_supported && domain_is_depositable domain
      then deposit domain co.inner
      else email co.inner

  -- `rfind('/')` finds a place here, since the address holds a `/`.
  unfoldable pub plan_override : Text → Bool → DeliveryPlan
  unfolding plan_care_of
  plan_override addr pickup_supported = elim (parse_care_of addr) [
    | some co ↦ plan_care_of co pickup_supported
    | none ↦
        if not (validate_wallet_id addr)
        then refuse override_mismatch
        else email_before override_mismatch (rsplit_once b'/' addr)
  ]

  unfoldable pub plan_fallback : Text → DeliveryPlan
  plan_fallback receiver_wallet_id = email_before no_receiver (rsplit_once b'/' receiver_wallet_id)

  unfoldable pub plan_receiver_delivery : Option Text → Text → Bool → DeliveryPlan
  unfolding plan_override plan_fallback
  plan_receiver_delivery none receiver_wallet_id pickup_supported = plan_fallback receiver_wallet_id
  plan_receiver_delivery (some a) receiver_wallet_id pickup_supported =
      if has b'/' a then plan_override a pickup_supported else plan_fallback receiver_wallet_id

-- The mailbox that a plan is for.
abbrev pub recipient : DeliveryPlan → Option Text
recipient (email e) = some e
recipient (deposit _ inner) = some inner
recipient (refuse _) = none
