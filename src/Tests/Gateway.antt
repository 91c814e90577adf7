-- ===== src/Tests/Gateway.antt =====
-- Tests of antie/src/gateway.rs: the dispatch, the replies, the gates and the deliveries.
use axiom_carriers.Base.{ℕ, true, false, Option, none, some, [], ◌∷◌, ◌≡◌, inr, refl, map}
use axiom_carriers.Base.Text.{
  codes, same, same_ignore_case, has, contains, starts_with, lower, lower_char,
}
use axiom_carriers.Base.Result.{ok}
use axiom_carriers.Disk.{
  Bytes, call, create, later_turns, next_turn, write_all, write_turn, rename, rename_turn, lookup,
  insert, erase, join, with_separator,
}
use axiom_carriers.Antie.Custody.{deposit, name_is_safe}
use axiom_carriers.Antie.Node.{Node}
use axiom_carriers.Antie.Pull.{IncomingMessage}
use axiom_carriers.Antie.Response.{AntieEmail, Replies, send_response, find_row, tee_copy}
use axiom_carriers.Antie.Response.Custody.{Delivered, send_response-Delivered}
use axiom_carriers.Antie.Dispatch.{
  Handlers, peer_audit_request, peer_audit_response, process_message,
}
use axiom_carriers.Antie.Busy.{Loop, process_carrier_messages, settled}
use axiom_carriers.Antie.Busy.Batch.{
  Balanced, id_of, marked_onto, process_carrier_messages-Balanced, process_carrier_messages_idle,
}
use axiom_carriers.Antie.Witness.{
  WitnessRequest, Services, Desk, LambdaResponse, cl2_rejected, handle_witness_request,
}
use axiom_carriers.Antie.Witness.Gates.{Untouched, handle_witness_request_stopped}
use axiom_carriers.Tests.{node, ask, reply, replies, handlers, transaction, cheque, carriers}

-- A node whose sender refuses the first mail.
abbrev refusing : Node
refusing = record node { mail_turns = false ∷ [] }

abbrev query : AntieEmail
query = ask (codes "query")

-- A session with short names.
abbrev held : AntieEmail
held = record query { custody = some (codes "h", codes "s") }

abbrev short : Replies
short = record replies {
  sink = none;
  routes = record { header = codes "h"; outbox = codes "o"; suppress_email = true } ∷ [];
}

send_response-Delivered_example :
    Delivered short held reply (1 ∷ []) node (send_response short held reply node).1
unfolding send_response same_ignore_case find_row deposit name_is_safe has contains starts_with same
    lower lower_char tee_copy call create later_turns next_turn write_all write_turn rename
    rename_turn lookup insert erase join with_separator
send_response-Delivered_example = send_response-Delivered short held reply (1 ∷ []) node refl refl

abbrev loop : Loop
loop = record {
  node = node;
  inbox_writes = 0;
  marks = [];
  messages_received = 0;
  messages_processed = 0;
  messages_failed = 0;
  busy_rejections = 0;
}

abbrev message : ℕ → IncomingMessage
message n = record { id = n ∷ []; raw = n ∷ []; name = n ∷ [] }

abbrev no_email : Bytes → Option AntieEmail
no_email raw = none

-- A slow validator: the first message of the two is turned away.
process_carrier_messages-Balanced_example :
    Balanced (
      process_carrier_messages handlers no_email 10
        (λ i. 20)
        (some (message 3 ∷ message 4 ∷ []))
        loop)
    × (map id_of
          (process_carrier_messages handlers no_email 10
            (λ i. 20)
            (some (message 3 ∷ message 4 ∷ []))
            loop).marks
        ≡ marked_onto (message 3 ∷ message 4 ∷ []) [])
process_carrier_messages-Balanced_example =
    process_carrier_messages-Balanced handlers no_email 10 (λ i. 20) (message 3 ∷ message 4 ∷ [])
      loop refl

process_carrier_messages_idle_example :
    process_carrier_messages handlers no_email 10 (λ i. 20) (some (message 3 ∷ [])) loop
    ≡ settled handlers no_email 10
        (message 3)
        (process_message handlers (3 ∷ []) node)
        (record loop { messages_received = 1; inbox_writes = 1 })
process_carrier_messages_idle_example =
    process_carrier_messages_idle handlers no_email 10 (λ i. 20) (message 3) loop

abbrev request : WitnessRequest
request = record {
  request_id = codes "r1";
  requester_address = [];
  transaction = transaction;
  has_overlap = false;
  produced_state_id = none;
  commitment_hash = none;
}

abbrev answer : LambdaResponse
answer = record {
  cheque_for_receiver = some cheque;
  vbc_signature = none;
  scar_consent_for_receiver = none;
  outbound_peer_audit = none;
  sender_leg = reply;
}

-- The key of the sender is in the ban file, and Core refuses everything.
abbrev services : Services
services = record {
  carriers = carriers;
  decode = λ body. some request;
  ban_file = some (codes "ab\ncd\n");
  nabla_ban_keys = λ tx. codes "cd" ∷ [];
  sig_prefilter = true;
  verify_ed25519 = λ tx. true;
  validate_transaction_cl2 = λ r. cl2_rejected (codes "E1");
  send_witness_request = λ r. ok answer;
}

abbrev desk : Desk
desk = record { node = node; wallet_rate_limiter = record { last_request = []; cooldown = 100 } }

handle_witness_request_stopped_example :
    Untouched desk (handle_witness_request services query 5 desk).1
handle_witness_request_stopped_example =
    handle_witness_request_stopped services query 5 desk
      (inr (request, refl, inr (codes "E1", refl)))
