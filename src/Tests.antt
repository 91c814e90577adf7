-- ===== src/Tests.antt =====
-- Test data, and below it the tests of each part.
pub mod Addresses
pub mod Carrier
pub mod Files
pub mod Gateway
pub mod Requests
pub mod Loops
pub mod Mail
pub mod Session
pub mod Tot
use axiom_carriers.Base.{
  ℕ, ◌==◌, if◌then◌else◌, ltb, Bool, true, false, Option, none, some, List, [], ◌∷◌, length,
}
use axiom_carriers.Base.Text.{Text, codes, has}
use axiom_carriers.Base.Result.{Result, ok, err}
use axiom_carriers.Disk.{Bytes, Disk, refused, works, torn}
use axiom_carriers.Antie.Node.{Stats, Node, AntieError, Act, lambda_rejected, email_parse_error}
use axiom_carriers.Antie.SkipList.{SkipList}
use axiom_carriers.Antie.Response.{AntieEmail, ResponsePayload, CustodyRoute, Replies}
use axiom_carriers.Antie.Dispatch.{ParseOutcome, parsed, Kind, Handlers}
use axiom_carriers.Antie.Delivery.{Transaction, Artifact, Carriers}

abbrev pub empty_disk : Disk
empty_disk = record { files = []; turns = []; seen = [] }

-- The first call is refused, and the third tears.
abbrev pub bad_disk : Disk
bad_disk = record { files = []; turns = works 1 ∷ works 0 ∷ torn 2 ∷ []; seen = [] }

abbrev pub no_stats : Stats
no_stats = record {
  emails_sent = 0;
  rounds_served = 0;
  oversize_dropped = 0;
  decrypt_fail = 0;
  parse_fail = 0;
  wallets_limited = 0;
  ban_rejected = 0;
  ban_list_unavailable = 0;
  care_of_verify_rejects = 0;
  care_of_deposits = 0;
  care_of_default_deliveries = 0;
  lambda_requests = 0;
  lambda_errors = 0;
  fanout_relay_refused = 0;
}

abbrev pub node : Node
node = record {
  disk = empty_disk;
  mail_turns = [];
  mails = [];
  stats = no_stats;
  undispatched = [];
}

abbrev pub session_row : CustodyRoute
session_row = record {
  header = codes "x-tot-session";
  outbox = codes "/run/tot";
  suppress_email = true;
}

abbrev pub ask : Text → AntieEmail
ask kind = record {
  from = codes "alice@example.com/a1";
  message_type = kind;
  request_id = codes "r1";
  raw_ump_body = [];
  uncle_correlate = some (7 ∷ []);
  custody = some (codes "X-TOT-Session", codes "s1");
}

abbrev pub reply : ResponsePayload
reply = record { success = true; request_id = codes "r1"; rejection_code = none; body = 1 ∷ [] }

abbrev pub replies : Replies
replies = record {
  sink = some (codes "/run/uncle", codes "1.2");
  routes = session_row ∷ [];
  is_dev_wallet = λ w. false;
  build_response = λ e p. ok p.body;
}

-- An empty message cannot be parsed, one that starts with 1 is an audit, all others are queries.
abbrev outcome : Bytes → Result AntieError ParseOutcome
outcome [] = err email_parse_error
outcome (x ∷ _) =
    if x == 1
    then ok (parsed (ask (codes "peer_audit_request")))
    else ok (parsed (ask (codes "query")))

abbrev handle : Kind → AntieEmail → Act ResponsePayload
handle k e n = (ok reply, n)

abbrev pub handlers : Handlers
handlers = record {
  replies = replies;
  try_parse_vbc_delivery = λ raw. none;
  file_vbc_delivery = λ raw sig n. n;
  parse_email_outcome = outcome;
  handle = handle;
}

abbrev pub transaction : Transaction
transaction = record {
  sender_wallet_id = codes "alice@example.com/a1";
  receiver_wallet_id = codes "bob@example.org/b2";
  receiver_address = some (codes "bob@example.org@pickup.net/b2");
  client_pk = 1 ∷ [];
  client_sig = 2 ∷ [];
}

abbrev pub cheque : Artifact
cheque = record { txid = 0xAB ∷ []; content = 5 ∷ [] }

abbrev pub skip_list : SkipList
skip_list = record {
  skip_list_path = codes "/etc/skip";
  skipped_dir = codes "/var/skipped";
  entries = codes "bob@example.org/b2" ∷ [];
}

abbrev pub carriers : Carriers
carriers = record {
  pickup = some (codes "/var/pickup");
  skip_list = some skip_list;
  validate_wallet_id = λ w. true;
  burn_address = codes "burn";
  encrypt = λ to raw. raw;
  build_cheque_delivery_email = λ to tx c. some c.content;
  build_scar_consent_email = λ to c. some c.content;
  build_vbc_delivery_email = λ to sig. some sig;
  build_peer_audit_request_email = λ to r. some r;
}
