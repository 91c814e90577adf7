-- ===== src/Antie/Delivery/SinglePath.antt =====
-- antie/src/gateway.rs, `handle_witness_request`: a cheque leaves on one path, and is not lost.
use axiom_carriers.Base.{true, Option, none, some, [], ◌∷◌, ◌≡◌, refl, arith, ◌⊎◌, ◌≢◌}
use axiom_carriers.Base.Text.{Text}
use axiom_carriers.Disk.{Bytes, Disk, lookup, join, call, create, write_all}
use axiom_carriers.Disk.Holds.{AfterOk, write_all-AfterOk, rename-AfterOk}
use axiom_carriers.Antie.CareOf.{DeliveryPlan, email, deposit, refuse}
use axiom_carriers.Antie.CareOf.Deposit.{deposit_atomic, pickup_tmp, pickup_new}
use axiom_carriers.Antie.SkipList.{SkipList, contains}
use axiom_carriers.Antie.SkipList as SkipList
use axiom_carriers.Antie.Node.{Node}
use axiom_carriers.Antie.Delivery.{
  Transaction, Artifact, Carriers, plan_of, try_deposit, cheque_deposit, cheque_skip,
}

deposit_atomic-AfterOk :
    (base domain filename : Text) (bytes : Bytes) (d : Disk)
    → AfterOk
        (λ e. lookup (pickup_new base domain filename) e.files ≡ some bytes)
        (deposit_atomic base domain filename bytes d)
unfolding deposit_atomic
deposit_atomic-AfterOk base domain filename bytes d =
    let tmp = pickup_tmp base domain filename in
    let d2 : Disk = (call (call d).1).1 in
    let d3 : Disk = (create tmp d2).1 in
    let d4 : Disk = (write_all tmp bytes d3).1 in
    ground (
      arith,
      write_all-AfterOk tmp bytes d3,
      rename-AfterOk tmp (pickup_new base domain filename) bytes d4,
    )

module _ (c : Carriers) where
  -- The artifact lies in the pickup's directory.
  abbrev pub AtPickup : DeliveryPlan → Text → Bytes → Node → Type 0
  AtPickup plan filename bytes n =
      (base : Text) × (domain : Text) × (inner : Text) × (c.pickup ≡ some base)
      × (plan ≡ deposit domain inner)
      × (lookup (pickup_new base domain filename) n.disk.files ≡ some bytes)

  -- The artifact lies where the sibling carrier collects it.
  abbrev pub AtSibling : Text → Text → Bytes → Node → Type 0
  AtSibling receiver filename bytes n =
      (sl : SkipList) × (c.skip_list ≡ some sl)
      × (contains sl receiver ≡ true)
      × (lookup (join sl.skipped_dir filename) n.disk.files ≡ some bytes)

  pub try_deposit-AtPickup :
      (pickup : Option Text) (plan : DeliveryPlan) (filename : Text) (bytes : Bytes) (n : Node)
      → c.pickup ≡ pickup
      → let r = try_deposit c pickup plan filename bytes n in
        (r.1.mails ≡ n.mails)
        × (r.1.mail_turns ≡ n.mail_turns)
        × (r.0 ≡ true → AtPickup plan filename bytes r.1)
  unfolding try_deposit
  try_deposit-AtPickup (some base) (deposit domain inner) filename bytes n e =
      let there = deposit_atomic-AfterOk base domain filename bytes n.disk in
      (ground arith, ground arith, λ done. (base, domain, inner, e, refl, ground (arith, there)))
  try_deposit-AtPickup (some base) (email _) filename bytes n e =
      (refl, refl, λ h. absurd (ground arith))
  try_deposit-AtPickup (some base) (refuse _) filename bytes n e =
      (refl, refl, λ h. absurd (ground arith))
  try_deposit-AtPickup none plan filename bytes n e = (refl, refl, λ h. absurd (ground arith))

  -- One path: the pickup or the sibling carrier without a mail, a mail to the address, or a mail that
  -- the sender did not take.
  abbrev pub OnePath : Transaction → Artifact → Text → Bytes → Node → Node → Type 0
  OnePath tx cheque to bytes n n' =
      ((n'.mails ≡ n.mails)
        × (AtPickup (plan_of c tx) (cheque_deposit c cheque) bytes n'
            ⊎ AtSibling tx.receiver_wallet_id (cheque_skip c cheque) bytes n'))
      ⊎ ((n'.mails ≡ (to, bytes) ∷ n.mails) ⊎ ((n'.mails ≡ n.mails) × (n.mail_turns ≢ [])))
