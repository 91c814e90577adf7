-- ===== src/Antie/Delivery/Safe.antt =====
-- antie/src/gateway.rs, `handle_witness_request`: who may receive what Lambda hands back.
use axiom_carriers.Base.{
  true, Option, none, some, ◌∷◌, ◌++◌, ◌≡◌, refl, arith, ◌⊎◌, inl, inr, Bool-cases, Option-cases,
}
use axiom_carriers.Base.Text.{Text, codes, same, has, before}
use axiom_carriers.Disk.{Bytes}
use axiom_carriers.Antie.CareOf.{recipient}
use axiom_carriers.Antie.UncleSink.{hex}
use axiom_carriers.Antie.Node.{Node, send, send_lem}
use axiom_carriers.Antie.Delivery.{
  Transaction, Artifact, Carriers, plan_of, try_deposit, deliver_cheque, carry_scar, scar_for,
  deliver_scar_consent, deliver_certificate, send_peer_audit,
}
use axiom_carriers.Antie.Delivery.SinglePath.{try_deposit-AtPickup}

module _ (c : Carriers) where
  -- A cheque of a burn, or one whose receiver fails the checksum, is delivered nowhere.
  pub deliver_cheque_nowhere :
      (tx : Transaction) (cheque : Artifact) (n : Node)
      → (same tx.receiver_wallet_id c.burn_address ≡ true) ⊎ (recipient (plan_of c tx) ≡ none)
      → let n' = deliver_cheque c tx cheque n in (n'.mails ≡ n.mails) × (n'.disk ≡ n.disk)
  unfolding deliver_cheque
  deliver_cheque_nowhere tx cheque n (inl burn) = ground arith
  deliver_cheque_nowhere tx cheque n (inr nobody) = ground arith

  -- One mail to the given recipient, or none.
  abbrev pub OnlyTo : Option Text → Node → Node → Type 0
  OnlyTo o n n' =
      (n'.mails ≡ n.mails)
      ⊎ ((to : Text) × (bytes : Bytes) × (o ≡ some to) × (n'.mails ≡ (to, bytes) ∷ n.mails))

  scar_for-OnlyTo :
      (o : Option Text) (tx : Transaction) (notice : Artifact) (n : Node)
      → OnlyTo o n (scar_for c o tx notice n)
  unfolding carry_scar
  scar_for-OnlyTo none tx notice n = inl refl
  scar_for-OnlyTo (some to) tx notice n =
      elim (Option-cases (c.build_scar_consent_email to notice)) [
        | inl unbuilt ↦ inl (ground (arith, unbuilt))
        | inr (raw, built) ↦
            let bytes = c.encrypt to raw in
            let name = hex notice.txid ++ codes ".scar_consent.eml" in
            let dep = try_deposit c c.pickup (plan_of c tx) name bytes n in
            let at_dep = try_deposit-AtPickup c c.pickup (plan_of c tx) name bytes n refl in
            let sent = send_lem to bytes dep.1 in
            elim (Bool-cases (dep.0)) [
              | inl took ↦ inl (ground (arith, built, took, at_dep))
              | inr left ↦ elim sent.2 [
                | inl mailed ↦ inr (to, bytes, refl, ground (arith, built, left, at_dep, mailed))
                | inr refused ↦ inl (ground (arith, built, left, at_dep, refused))
              ]
            ]
      ]

  -- The passcode of a scar consent is mailed once and to the verified recipient, or not mailed at all.
  deliver_scar_consent-OnlyTo :
      (tx : Transaction) (notice : Artifact) (n : Node)
      → OnlyTo (recipient (plan_of c tx)) n (deliver_scar_consent c tx notice n)
  unfolding deliver_scar_consent
  deliver_scar_consent-OnlyTo tx notice n = scar_for-OnlyTo (recipient (plan_of c tx)) tx notice n

  -- The certificate exists in no directory of the node, and is mailed to the stake's mailbox or to
  -- nobody.
  pub deliver_certificate_mail :
      (tx : Transaction) (sig : Bytes) (n : Node)
      → let n' = deliver_certificate c tx sig n in
        (n'.disk ≡ n.disk) × OnlyTo (some (before b'/' tx.sender_wallet_id)) n n'
  unfolding deliver_certificate
  deliver_certificate_mail tx sig n =
      let to = before b'/' tx.sender_wallet_id in
      elim (Bool-cases (has b'@' to)) [
        | inr nowhere ↦ (ground (arith, nowhere), inl (ground (arith, nowhere)))
        | inl there ↦ elim (Option-cases (c.build_vbc_delivery_email to sig)) [
          | inl unbuilt ↦ (ground (arith, there, unbuilt), inl (ground (arith, there, unbuilt)))
          | inr (raw, built) ↦
              let sent = send_lem to (c.encrypt to raw) n in
              (
                ground (arith, there, built, sent),
                elim sent.2 [
                  | inl mailed ↦
                      inr (to, c.encrypt to raw, refl, ground (arith, there, built, mailed))
                  | inr refused ↦ inl (ground (arith, there, built, refused))
                ],
              )
        ]
      ]

  -- An audit request that could be built has left, or Lambda is told that it has not: never both and
  -- never neither.
  pub send_peer_audit_told :
      (target : Text) (request raw : Bytes) (n : Node)
      → c.build_peer_audit_request_email target request ≡ some raw
      → let n' = send_peer_audit c target request n in
        ((n'.mails ≡ (target, raw) ∷ n.mails)
          × (n'.undispatched ≡ (send target raw n).1.undispatched))
        ⊎ ((n'.mails ≡ n.mails) × (n'.undispatched ≡ target ∷ (send target raw n).1.undispatched))
  unfolding send_peer_audit
  send_peer_audit_told target request raw n built = ground (arith, send_lem target raw n)
