-- ===== src/Antie/Witness/Gates.antt =====
-- antie/src/gateway.rs, `handle_witness_request`: what a request has to pass, and what a refused one
-- leaves behind.
use axiom_carriers.Base.{ℕ, true, none, some, ◌≡◌, arith, ◌⊎◌, inl, inr}
use axiom_carriers.Base.Text.{Text}
use axiom_carriers.Base.Result.{ok, err}
use axiom_carriers.Antie.Node.{AntieError}
use axiom_carriers.Antie.Response.{AntieEmail}
use axiom_carriers.Antie.Witness.{
  WitnessRequest, cl2_rejected, Services, Desk, addressed, rate_gate, nabla_ban_file_lists,
  ban_gate, sig_gate, admit, handle_witness_request,
}

-- The mails, the disk and the count of Lambda's requests are as they were.
abbrev pub Untouched : Desk → Desk → Type 0
Untouched d e =
    (e.node.mails ≡ d.node.mails)
    × (e.node.disk ≡ d.node.disk)
    × (e.node.stats.lambda_requests ≡ d.node.stats.lambda_requests)

module _ (sv : Services) where
  -- A request that carries signatures of a previous round is exempt from every gate.
  pub admit_overlap :
      (req : WitnessRequest) (now : ℕ) (d : Desk)
      → req.has_overlap ≡ true
      → admit sv req now d ≡ (ok tt, d)
  unfolding admit rate_gate ban_gate sig_gate
  admit_overlap req now d h = ground arith

  rate_gate-Untouched :
      (req : WitnessRequest) (now : ℕ) (d : Desk) → Untouched d (rate_gate req now d).1
  unfolding rate_gate
  rate_gate-Untouched req now d = ground arith

  ban_gate-Untouched : (req : WitnessRequest) (d : Desk) → Untouched d (ban_gate sv req d).1
  unfolding ban_gate nabla_ban_file_lists
  ban_gate-Untouched req d = ground arith

  sig_gate-Untouched : (req : WitnessRequest) (d : Desk) → Untouched d (sig_gate sv req d).1
  unfolding sig_gate
  sig_gate-Untouched req d = ground arith

  admit-Untouched : (req : WitnessRequest) (now : ℕ) (d : Desk) → Untouched d (admit sv req now d).1
  unfolding admit
  admit-Untouched req now d =
      let d1 : Desk = (rate_gate req now d).1 in
      let d2 : Desk = (ban_gate sv req d1).1 in
      ground
        (arith, rate_gate-Untouched req now d, ban_gate-Untouched req d1, sig_gate-Untouched req d2)

  -- A request that cannot be read, is held by a gate or is refused by Core costs Lambda nothing, mails
  -- nothing and writes nothing.
  pub handle_witness_request_stopped :
      (email : AntieEmail) (now : ℕ) (d : Desk)
      → (sv.decode email.raw_ump_body ≡ none)
        ⊎ ((body : WitnessRequest) × (sv.decode email.raw_ump_body ≡ some body)
            × (((e : AntieError) × ((admit sv (addressed email body) now d).0 ≡ err e))
                ⊎ ((code : Text) × (sv.validate_transaction_cl2 (addressed email body)
                      ≡ cl2_rejected code))))
      → Untouched d (handle_witness_request sv email now d).1
  unfolding handle_witness_request
  handle_witness_request_stopped email now d (inl unread) = ground arith
  handle_witness_request_stopped email now d (inr (body, read, inl (e, held))) =
      ground (arith, admit-Untouched (addressed email body) now d)
  handle_witness_request_stopped email now d (inr (body, read, inr (code, refused))) =
      ground (arith, admit-Untouched (addressed email body) now d)
