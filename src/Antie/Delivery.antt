-- ===== src/Antie/Delivery.antt =====
-- antie/src/gateway.rs, `handle_witness_request`: how what Lambda hands back for others leaves the
-- node: the cheque, the certificate, the notice of a scar consent and the audit request.
pub mod SinglePath
pub mod Safe
use axiom_carriers.Base.{Bool, true, false, not, if◌then◌else◌, Option, none, some, [], ◌∷◌, ◌++◌}
use axiom_carriers.Base.Text.{Text, codes, same, has, before}
use axiom_carriers.Base.Result.{Result, ok, err}
use axiom_carriers.Disk.{Bytes, Disk, IoError}
use axiom_carriers.Antie.CareOf.{
  DeliveryPlan, email, deposit, refuse, parse_care_of, plan_receiver_delivery, recipient,
}
use axiom_carriers.Antie.CareOf.Deposit.{deposit_atomic}
use axiom_carriers.Antie.SkipList.{SkipList, contains, write_skipped}
use axiom_carriers.Antie.UncleSink.{hex}
use axiom_carriers.Antie.Node.{Stats, bump, Node, send}

-- What the gateway reads of Core's `Transaction`.
pub record Transaction : Type 0 where
  pub sender_wallet_id : Text
  pub receiver_wallet_id : Text
  pub receiver_address : Option Text
  pub client_pk : Bytes
  pub client_sig : Bytes

-- A cheque, or a notice of a scar consent.
pub record Artifact : Type 0 where
  pub txid : Bytes
  pub content : Bytes

-- The configuration, Core's checksum and burn address, and the builders of the mails; `encrypt` gives
-- the plain text back where it has no key.
pub record Carriers : Type 0 where
  pub pickup : Option Text
  pub skip_list : Option SkipList
  pub validate_wallet_id : Text → Bool
  pub burn_address : Text
  pub encrypt : Text → Bytes → Bytes
  pub build_cheque_delivery_email : Text → Transaction → Artifact → Option Bytes
  pub build_scar_consent_email : Text → Artifact → Option Bytes
  pub build_vbc_delivery_email : Text → Bytes → Option Bytes
  pub build_peer_audit_request_email : Text → Bytes → Option Bytes

abbrev pub is_some : {A : Type 0} → Option A → Bool
is_some none = false
is_some (some _) = true

module _ (c : Carriers) where
  abbrev pub plan_of : Transaction → DeliveryPlan
  plan_of tx =
      plan_receiver_delivery c.validate_wallet_id tx.receiver_address tx.receiver_wallet_id
        (is_some c.pickup)

  abbrev pub deposited : Result IoError Text × Disk → Node → Bool × Node
  deposited (ok _, d) n = (
    true,
    record n {
      disk = d;
      stats = record n.stats { care_of_deposits = bump n.stats.care_of_deposits };
    },
  )
  deposited (err _, d) n = (false, record n { disk = d })

  -- A deposit is planned only where a pickup is configured.
  unfoldable pub try_deposit : Option Text → DeliveryPlan → Text → Bytes → Node → Bool × Node
  try_deposit (some base) (deposit domain _) filename bytes n =
      deposited (deposit_atomic base domain filename bytes n.disk) n
  try_deposit (some base) (email _) filename bytes n = (false, n)
  try_deposit (some base) (refuse _) filename bytes n = (false, n)
  try_deposit none plan filename bytes n = (false, n)

  abbrev pub skipped : Result IoError Text × Disk → Node → Bool × Node
  skipped (ok _, d) n = (true, record n { disk = d })
  skipped (err _, d) n = (false, record n { disk = d })

  unfoldable pub try_skip : Option SkipList → Text → Text → Bytes → Node → Bool × Node
  try_skip none receiver filename bytes n = (false, n)
  try_skip (some sl) receiver filename bytes n =
      if contains sl receiver
      then skipped (write_skipped sl filename bytes n.disk) n
      else (false, n)

  -- A care-of address that is not supported here.
  unfoldable pub count_default : DeliveryPlan → Option Text → Node → Node
  count_default (email _) (some a) n =
      if is_some (parse_care_of a)
      then record n {
        stats = record n.stats {
          care_of_default_deliveries = bump n.stats.care_of_default_deliveries;
        };
      }
      else n
  count_default (email _) none n = n
  count_default (deposit _ _) _ n = n
  count_default (refuse _) _ n = n

  abbrev pub count_refused : Node → Node
  count_refused n = record n {
    stats = record n.stats { care_of_verify_rejects = bump n.stats.care_of_verify_rejects };
  }

  abbrev pub cheque_deposit : Artifact → Text
  cheque_deposit a = hex a.txid ++ codes ".cheque.eml"

  abbrev pub cheque_skip : Artifact → Text
  cheque_skip a = hex a.txid ++ codes ".cheque"

  -- The pickup, then the sibling carrier, then mail; each only if the one before did not take it.
  unfoldable pub carry_cheque : Transaction → Artifact → Text → Bytes → Node → Node
  unfolding try_deposit try_skip count_default
  carry_cheque tx cheque to bytes n =
      let dep = try_deposit c.pickup (plan_of tx) (cheque_deposit cheque) bytes n in
      let n1 = count_default (plan_of tx) tx.receiver_address dep.1 in
      let skip = try_skip c.skip_list tx.receiver_wallet_id (cheque_skip cheque) bytes n1 in
      if dep.0 then n1 else if skip.0 then skip.1 else (send to bytes skip.1).1

  abbrev pub cheque_for : Option Text → Transaction → Artifact → Node → Node
  cheque_for none tx cheque n = count_refused n
  cheque_for (some to) tx cheque n = elim (c.build_cheque_delivery_email to tx cheque) [
    | some raw ↦ carry_cheque tx cheque to (c.encrypt to raw) n
    | none ↦ n
  ]

  unfoldable pub deliver_cheque : Transaction → Artifact → Node → Node
  unfolding carry_cheque
  deliver_cheque tx cheque n =
      if same tx.receiver_wallet_id c.burn_address
      then n
      else cheque_for (recipient (plan_of tx)) tx cheque n

  -- The notice of a scar consent is planned like a cheque; the skip list has no say in it.
  unfoldable pub carry_scar : Transaction → Artifact → Text → Bytes → Node → Node
  unfolding try_deposit
  carry_scar tx notice to bytes n =
      let dep =
        try_deposit c.pickup (plan_of tx) (hex notice.txid ++ codes ".scar_consent.eml") bytes n in
      if dep.0 then dep.1 else (send to bytes dep.1).1

  abbrev pub scar_for : Option Text → Transaction → Artifact → Node → Node
  scar_for none tx notice n = count_refused n
  scar_for (some to) tx notice n = elim (c.build_scar_consent_email to notice) [
    | some raw ↦ carry_scar tx notice to (c.encrypt to raw) n
    | none ↦ n
  ]

  unfoldable pub deliver_scar_consent : Transaction → Artifact → Node → Node
  unfolding carry_scar
  deliver_scar_consent tx notice n = scar_for (recipient (plan_of tx)) tx notice n

  -- The certificate goes to the mailbox of the stake, which stands in front of the first `/`.
  unfoldable pub deliver_certificate : Transaction → Bytes → Node → Node
  deliver_certificate tx sig n =
      let to = before b'/' tx.sender_wallet_id in
      if not (has b'@' to) then n else elim (c.build_vbc_delivery_email to sig) [
        | some raw ↦ (send to (c.encrypt to raw) n).1
        | none ↦ n
      ]

  -- Lambda is told of an audit that did not leave.
  unfoldable pub send_peer_audit : Text → Bytes → Node → Node
  send_peer_audit target request n = elim (c.build_peer_audit_request_email target request) [
    | some raw ↦
        let r = send target raw n in
        elim r.0 [ ok _ ↦ r.1 | err _ ↦ record r.1 { undispatched = target ∷ r.1.undispatched } ]
    | none ↦ n
  ]
