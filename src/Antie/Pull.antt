-- ===== src/Antie/Pull.antt =====
-- antie/src/gateway.rs, `deliver_carrier_messages` and `pull_loop`: mail is fetched into the inbox,
-- and is deleted on the server only when it lies there.
pub mod Staged
use axiom_carriers.Base.{
  ℕ, ◌+◌, Bool, true, false, not, if◌then◌else◌, Option, none, some, List, [], ◌∷◌, ◌++◌,
}
use axiom_carriers.Base.Text.{Text}
use axiom_carriers.Base.Result.{Result, ok, err}
use axiom_carriers.Disk.{Bytes, Disk, Io}
use axiom_carriers.Antie.Backoff.{Gauges, carrier_backoff, note_carrier_attempt}
use axiom_carriers.Antie.Maildir.{Maildir, write_message}

-- antie/src/carrier.rs. `name` is the file name that the inbox would make for the message.
pub record IncomingMessage : Type 0 where
  pub id : Text
  pub raw : Bytes
  pub name : Text

-- What a carrier was told of a message, the latest first; its answer is ignored.
pub data Mark : Type 0 where
  processed failed : Text → Mark

-- `inbox_writes` counts the stamps of `last_inbox_write_unix`; the beats of the loop are left out.
pub record Funnel : Type 0 where
  pub disk : Disk
  pub marks : List Mark
  pub inbox_writes : ℕ

-- `too_low` is the entropy test under the threshold, if there is one.
module _ (inbox : Maildir) (too_low : Option (Bytes → Bool)) where
  abbrev pub is_spam : Option (Bytes → Bool) → Bytes → Bool
  is_spam none raw = false
  is_spam (some low) raw = low raw

  unfoldable pub deliver_message : IncomingMessage → Funnel → Funnel
  deliver_message msg f =
      let r = write_message inbox msg.name msg.raw f.disk in
      if is_spam too_low msg.raw
      then record f { marks = processed msg.id ∷ f.marks }
      else elim r.0 [
        | ok _ ↦ record f {
          disk = r.1;
          marks = processed msg.id ∷ f.marks;
          inbox_writes = f.inbox_writes + 1;
        }
        | err _ ↦ record f { disk = r.1; marks = failed msg.id ∷ f.marks }
      ]

  unfoldable pub deliver_messages : List IncomingMessage → Funnel → Funnel
  unfolding deliver_message
  deliver_messages [] f = f
  deliver_messages (m ∷ ms) f = deliver_messages ms (deliver_message m f)

  -- `check_new` failed, or gave messages.
  unfoldable pub deliver_carrier_messages : Option (List IncomingMessage) → Funnel → Funnel × Bool
  unfolding deliver_messages
  deliver_carrier_messages (some messages) f = (deliver_messages messages f, true)
  deliver_carrier_messages none f = (f, false)

  -- One fetch for each element, as long as the gateway runs: the waits that follow them.
  unfoldable pub pull_loop :
      ℕ → List (Option (List IncomingMessage)) → ℕ → Gauges → Funnel → List ℕ × ℕ × Gauges × Funnel
  unfolding deliver_carrier_messages
  pull_loop interval [] failures g f = ([], failures, g, f)
  pull_loop interval (fetch ∷ fetches) failures g f =
      let (f', reached) = deliver_carrier_messages fetch f in
      let (g', failures') = note_carrier_attempt g failures reached in
      let (waits, failures'', g'', f'') = pull_loop interval fetches failures' g' f' in
      (carrier_backoff interval failures' ∷ waits, failures'', g'', f'')
