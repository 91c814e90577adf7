-- ===== src/Antie/Busy.antt =====
-- antie/src/gateway.rs, `process_carrier_messages`: one batch of the dispatch loop, with the gate that
-- sheds a backlog. `read_avg` is what the counter of the poller shows at each message.
pub mod Batch
use axiom_carriers.Base.{
  ℕ, ◌+◌, ◌-◌, ◌*◌, ◌%◌, ◌^◌, ltb, ◌==◌, Bool, true, false, if◌then◌else◌, Option, none, some, List,
  [], ◌∷◌, length,
}
use axiom_carriers.Base.Text.{Text, codes, split_once, trim}
use axiom_carriers.Base.Decimal.{parse}
use axiom_carriers.Base.Result.{Result, ok, err}
use axiom_carriers.Disk.{Bytes}
use axiom_carriers.Antie.Node.{AntieError, bump, Node}
use axiom_carriers.Antie.Response.{AntieEmail, send_response}
use axiom_carriers.Antie.Dispatch.{Handlers, refusal, process_message}
use axiom_carriers.Antie.Pull.{IncomingMessage, Mark, processed, failed}

-- What the poller of Lambda's statistics keeps.
pub record Load : Type 0 where
  pub avg_witness_ms : ℕ
  pub lambda_stats_poll_failures : ℕ

-- `Some` is the reason to warn of.
unfoldable pub record_stats_poll : Load → Result Text ℕ → Load × Option Text
record_stats_poll l (ok v) = (record l { avg_witness_ms = v }, none)
record_stats_poll l (err reason) =
    let n = (bump l.lambda_stats_poll_failures) in
    (
      record l { lambda_stats_poll_failures = n },
      if n == 1 then some reason else if n % 100 == 0 then some reason else none,
    )

-- A `usize` times a `u64`.
unfoldable pub busy_estimate_exceeds : ℕ → ℕ → ℕ → Bool
busy_estimate_exceeds queue_depth avg_ms threshold_ms =
    ltb threshold_ms ((queue_depth * avg_ms) % 2 ^ 64)

unfoldable pub should_reject_busy : ℕ → ℕ → ℕ → Bool
unfolding busy_estimate_exceeds
should_reject_busy threshold avg_ms queue_depth =
    if threshold == 0
    then false
    else if avg_ms == 0
    then false
    else busy_estimate_exceeds queue_depth avg_ms threshold

-- `inbox_writes` counts the stamps of `last_inbox_write_unix`; the beats of the loop are left out.
pub record Loop : Type 0 where
  pub node : Node
  pub inbox_writes : ℕ
  pub marks : List Mark
  pub messages_received : ℕ
  pub messages_processed : ℕ
  pub messages_failed : ℕ
  pub busy_rejections : ℕ

-- `parse_email` has no key to decrypt with; the errors of a rejection are logged.
module _ (h : Handlers) (parse_email : Bytes → Option AntieEmail) (threshold : ℕ) where
  abbrev pub rejected : Option AntieEmail → Node → Node
  rejected none n = n
  rejected (some email) n =
      (send_response h.replies email (refusal email (codes "E_VALIDATOR_BUSY")) n).1

  unfoldable pub send_busy_rejection : Bytes → Node → Node
  send_busy_rejection raw n = rejected (parse_email raw) n

  abbrev pub turned_away : IncomingMessage → Loop → Loop
  turned_away msg l = record l {
    node = send_busy_rejection msg.raw l.node;
    busy_rejections = bump l.busy_rejections;
    marks = processed msg.id ∷ l.marks;
  }

  abbrev pub settled : IncomingMessage → Result AntieError (Unit {0}) × Node → Loop → Loop
  settled msg (ok _, n) l = record l {
    node = n;
    messages_processed = bump l.messages_processed;
    marks = processed msg.id ∷ l.marks;
  }
  settled msg (err _, n) l = record l {
    node = n;
    messages_failed = bump l.messages_failed;
    marks = failed msg.id ∷ l.marks;
  }

  unfoldable pub process_one : ℕ → ℕ → IncomingMessage → Loop → Loop
  process_one avg_ms queue_depth msg l =
      let l' = record l { messages_received = bump l.messages_received } in
      if should_reject_busy threshold avg_ms queue_depth
      then turned_away msg l'
      else settled msg (process_message h msg.raw l'.node) l'

  unfoldable pub process_from : (ℕ → ℕ) → ℕ → ℕ → List IncomingMessage → Loop → Loop
  unfolding process_one
  process_from read_avg total idx [] l = l
  process_from read_avg total idx (m ∷ ms) l =
      process_from read_avg total (idx + 1) ms (process_one (read_avg idx) (total - (idx + 1)) m l)

  -- `check_new` may fail.
  unfoldable pub process_carrier_messages : (ℕ → ℕ) → Option (List IncomingMessage) → Loop → Loop
  unfolding process_from
  process_carrier_messages read_avg none l = l
  process_carrier_messages read_avg (some messages) l =
      let total = length messages in
      let noted = if ltb 0 total then l.inbox_writes + 1 else l.inbox_writes in
      process_from read_avg total 0 messages (record l { inbox_writes = noted })
