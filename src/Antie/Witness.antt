-- ===== src/Antie/Witness.antt =====
-- antie/src/gateway.rs, `handle_witness_request`: the gates in front of Lambda, the call, and what is
-- delivered of its answer.
pub mod Gates
use axiom_carriers.Base.{
  ℕ, ltb, Bool, true, false, not, ◌&&◌, ◌||◌, if◌then◌else◌, Option, none, some, List, [], ◌∷◌, map,
  any, length,
}
use axiom_carriers.Base.Text.{Text, codes, trim}
use axiom_carriers.Base.Result.{Result, ok, err}
use axiom_carriers.Disk.{Bytes}
use axiom_carriers.Antie.CareOf.{is_empty}
use axiom_carriers.Antie.SkipList.{lines, member}
use axiom_carriers.Antie.WalletLimit.{WalletRateLimiter, check_and_record, evict_stale}
use axiom_carriers.Antie.Node.{
  AntieError, rate_limited, wallet_banned, email_parse_error, invalid_payload, Stats, bump, Node,
}
use axiom_carriers.Antie.Response.{AntieEmail, ResponsePayload}
use axiom_carriers.Antie.Dispatch.{refusal}
use axiom_carriers.Antie.Delivery.{
  Transaction, Artifact, Carriers, deliver_cheque, deliver_certificate, deliver_scar_consent,
  send_peer_audit,
}

-- `has_overlap` stands for signatures of a previous round.
pub record WitnessRequest : Type 0 where
  pub request_id : Text
  pub requester_address : Text
  pub transaction : Transaction
  pub has_overlap : Bool
  pub produced_state_id : Option Bytes
  pub commitment_hash : Option Bytes

-- Core's verdict: a refusal with its code, new values, or no Core to ask.
pub data Cl2 : Type 0 where
  cl2_rejected : Text → Cl2
  cl2_accepted : Option Bytes → Option Bytes → Cl2
  cl2_unavailable : Cl2

pub record LambdaResponse : Type 0 where
  pub cheque_for_receiver : Option Artifact
  pub vbc_signature : Option Bytes
  pub scar_consent_for_receiver : Option Artifact
  pub outbound_peer_audit : Option (Text × Bytes)
  pub sender_leg : ResponsePayload

-- What the gates ask, and the two services; `ban_file` is the file's contents if it could be read.
pub record Services : Type 0 where
  pub carriers : Carriers
  pub decode : Bytes → Option WitnessRequest
  pub ban_file : Option Text
  pub nabla_ban_keys : Transaction → List Text
  pub sig_prefilter : Bool
  pub verify_ed25519 : Transaction → Bool
  pub validate_transaction_cl2 : WitnessRequest → Cl2
  pub send_witness_request : WitnessRequest → Result AntieError LambdaResponse

pub record Desk : Type 0 where
  pub node : Node
  pub wallet_rate_limiter : WalletRateLimiter

abbrev with_stats : Desk → Stats → Desk
with_stats d s = record d { node = record d.node { stats = s } }

-- The sender's own fields fill what the body leaves empty.
unfoldable pub addressed : AntieEmail → WitnessRequest → WitnessRequest
addressed email req = record req {
  request_id = if is_empty req.request_id then email.request_id else req.request_id;
  requester_address = if is_empty req.requester_address then email.from else req.requester_address;
}

abbrev limited : WalletRateLimiter × Bool → ℕ → Desk → Result AntieError (Unit {0}) × Desk
limited (l, false) now d = (
  err rate_limited,
  with_stats (record d { wallet_rate_limiter = l })
      (record d.node.stats { wallets_limited = bump d.node.stats.wallets_limited }),
)
limited (l, true) now d = (
  ok tt,
  record d {
    wallet_rate_limiter = if ltb 100 (length l.last_request) then evict_stale l now else l;
  },
)

unfoldable pub rate_gate : WitnessRequest → ℕ → Desk → Result AntieError (Unit {0}) × Desk
rate_gate req now d =
    let wallet_id = req.transaction.sender_wallet_id in
    if req.has_overlap || is_empty wallet_id
    then (ok tt, d)
    else limited (check_and_record d.wallet_rate_limiter wallet_id now) now d

-- A file that cannot be read lets the request through, and is counted.
unfoldable pub nabla_ban_file_lists : Option Text → List Text → Stats → Bool × Stats
nabla_ban_file_lists (some contents) keys s =
    (any (λ line. member line keys) (map trim (lines contents)), s)
nabla_ban_file_lists none keys s =
    (false, record s { ban_list_unavailable = bump s.ban_list_unavailable })

abbrev banned : Bool × Stats → Desk → Result AntieError (Unit {0}) × Desk
banned (true, s) d =
    (err wallet_banned, with_stats d (record s { ban_rejected = bump s.ban_rejected }))
banned (false, s) d = (ok tt, with_stats d s)

module _ (sv : Services) where
  unfoldable pub ban_gate : WitnessRequest → Desk → Result AntieError (Unit {0}) × Desk
  unfolding nabla_ban_file_lists
  ban_gate req d =
      if req.has_overlap
      then (ok tt, d)
      else banned
          (nabla_ban_file_lists sv.ban_file (sv.nabla_ban_keys req.transaction) d.node.stats) d

  unfoldable pub sig_gate : WitnessRequest → Desk → Result AntieError (Unit {0}) × Desk
  sig_gate req d =
      let tx = req.transaction in
      if not req.has_overlap
        && sv.sig_prefilter
        && not (is_empty tx.client_sig)
        && not (is_empty tx.client_pk)
        && not (sv.verify_ed25519 tx)
      then (
        err email_parse_error,
        with_stats d (record d.node.stats { parse_fail = bump d.node.stats.parse_fail }),
      )
      else (ok tt, d)

  abbrev after :
      {A : Type 0}
      → Result AntieError (Unit {0}) × Desk
      → (Desk → Result AntieError A × Desk)
      → Result AntieError A × Desk
  after (ok _, d) k = k d
  after (err e, d) k = (err e, d)

  -- The gates in order: the first refusal ends it.
  unfoldable pub admit : WitnessRequest → ℕ → Desk → Result AntieError (Unit {0}) × Desk
  unfolding rate_gate ban_gate sig_gate
  admit req now d = after (rate_gate req now d) (λ d1. after (ban_gate req d1) (sig_gate req))

  abbrev each : {A : Type 0} → Option A → (A → Node → Node) → Node → Node
  each none f n = n
  each (some a) f n = f a n

  unfoldable pub deliver_all : Transaction → LambdaResponse → Node → Node
  deliver_all tx r n =
      let n1 = each r.cheque_for_receiver (deliver_cheque sv.carriers tx) n in
      let n2 = each r.vbc_signature (deliver_certificate sv.carriers tx) n1 in
      let n3 = each r.scar_consent_for_receiver (deliver_scar_consent sv.carriers tx) n2 in
      each r.outbound_peer_audit (λ a. send_peer_audit sv.carriers a.0 a.1) n3

  abbrev pub from_lambda :
      WitnessRequest
      → Result AntieError LambdaResponse
      → Desk
      → Result AntieError ResponsePayload × Desk
  from_lambda req (ok r) d =
      (ok r.sender_leg, record d { node = deliver_all req.transaction r d.node })
  from_lambda req (err e) d = (
    err e,
    with_stats d (record d.node.stats { lambda_errors = bump d.node.stats.lambda_errors }),
  )

  -- `track_lambda` counts the request first.
  abbrev pub ask_lambda : WitnessRequest → Desk → Result AntieError ResponsePayload × Desk
  ask_lambda req d =
      from_lambda req (sv.send_witness_request req)
        (with_stats d (record d.node.stats { lambda_requests = bump d.node.stats.lambda_requests }))

  abbrev pub judged :
      Cl2 → AntieEmail → WitnessRequest → Desk → Result AntieError ResponsePayload × Desk
  judged (cl2_rejected code) email req d = (ok (refusal email (codes "CL2_VALIDATION_FAILED")), d)
  judged (cl2_accepted state hash) email req d =
      ask_lambda (record req { produced_state_id = state; commitment_hash = hash }) d
  judged cl2_unavailable email req d =
      ask_lambda (record req { produced_state_id = none; commitment_hash = none }) d

  abbrev pub admitted :
      AntieEmail → ℕ → Option WitnessRequest → Desk → Result AntieError ResponsePayload × Desk
  admitted email now none d = (err invalid_payload, d)
  admitted email now (some body) d =
      let req = addressed email body in
      after (admit req now d) (judged (sv.validate_transaction_cl2 req) email req)

  unfoldable pub handle_witness_request :
      AntieEmail → ℕ → Desk → Result AntieError ResponsePayload × Desk
  unfolding admit deliver_all addressed
  handle_witness_request email now d = admitted email now (sv.decode email.raw_ump_body) d
