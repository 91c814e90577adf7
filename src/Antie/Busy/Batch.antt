-- ===== src/Antie/Busy/Batch.antt =====
-- antie/src/gateway.rs, `process_carrier_messages`: every message of a batch is settled once, and the
-- gate cannot lock itself.
use axiom_carriers.Base.{
  ltb, if◌then◌else◌, ℕ, ◌+◌, ◌-◌, ◌%◌, ◌^◌, Option, some, List, [], ◌∷◌, map, length, ◌≡◌, refl,
  arith, ◌∙◌, Bool-cases, inl, inr,
}
use axiom_carriers.Base.Text.{Text}
use axiom_carriers.Base.Result.{Result, ok, err}
use axiom_carriers.Disk.{Bytes}
use axiom_carriers.Antie.Node.{AntieError, bump, Node}
use axiom_carriers.Antie.Response.{AntieEmail}
use axiom_carriers.Antie.Dispatch.{Handlers, process_message}
use axiom_carriers.Antie.Pull.{IncomingMessage, Mark, processed, failed}
use axiom_carriers.Antie.Busy.{
  busy_estimate_exceeds, should_reject_busy, Loop, settled, process_one, process_from,
  process_carrier_messages,
}

abbrev pub id_of : Mark → Text
id_of (processed id) = id
id_of (failed id) = id

abbrev pub marked_onto : List IncomingMessage → List Text → List Text
marked_onto [] acc = acc
marked_onto (m ∷ ms) acc = marked_onto ms (m.id ∷ acc)

-- The three outcomes add up to what came in; the counters are 64 bits wide.
abbrev pub Balanced : Loop → Type 0
Balanced l =
    (l.messages_processed + l.messages_failed + l.busy_rejections) % 2 ^ 64
    ≡ l.messages_received % 2 ^ 64

module _ (h : Handlers) (parse_email : Bytes → Option AntieEmail) (threshold : ℕ) where
  settled-Balanced :
      (m : IncomingMessage) (r : Result AntieError (Unit {0}) × Node) (l : Loop)
      → Balanced l
      → Balanced (
          settled h parse_email threshold m r
            (record l { messages_received = bump l.messages_received }))
        × (map id_of
              (settled h parse_email threshold m r
                (record l { messages_received = bump l.messages_received })).marks
            ≡ m.id ∷ map id_of l.marks)
  settled-Balanced m (ok _, n) l b = (omega arith, refl)
  settled-Balanced m (err _, n) l b = (omega arith, refl)

  process_one-Balanced :
      (avg_ms depth : ℕ) (m : IncomingMessage) (l : Loop)
      → Balanced l
      → Balanced (process_one h parse_email threshold avg_ms depth m l)
        × (map id_of (process_one h parse_email threshold avg_ms depth m l).marks
            ≡ m.id ∷ map id_of l.marks)
  unfolding process_one
  process_one-Balanced avg_ms depth m l b =
      elim (Bool-cases (should_reject_busy threshold avg_ms depth)) [
        | inl busy ↦ rw busy ((omega arith, refl))
        | inr calm ↦ rw calm (settled-Balanced m (process_message h m.raw l.node) l b)
      ]

  process_from-Balanced :
      (read_avg : ℕ → ℕ) (total idx : ℕ) (ms : List IncomingMessage) (l : Loop)
      → Balanced l
      → Balanced (process_from h parse_email threshold read_avg total idx ms l)
        × (map id_of (process_from h parse_email threshold read_avg total idx ms l).marks
            ≡ marked_onto ms (map id_of l.marks))
  unfolding process_from
  process_from-Balanced read_avg total idx [] l b = (b, refl)
  process_from-Balanced read_avg total idx (m ∷ ms) l b =
      let one = process_one-Balanced (read_avg idx) (total - (idx + 1)) m l b in
      let rest =
        process_from-Balanced read_avg total (idx + 1) ms
          (process_one h parse_email threshold (read_avg idx) (total - (idx + 1)) m l) one.0 in
      (rest.0, rest.1 ∙ rw one.1 refl)

  -- A batch settles each of its messages once and in order, whatever the handlers, the mails and the
  -- load do, and the processed, the failed and the busy messages add up to those received.
  pub process_carrier_messages-Balanced :
      (read_avg : ℕ → ℕ) (ms : List IncomingMessage) (l : Loop)
      → Balanced l
      → Balanced (process_carrier_messages h parse_email threshold read_avg (some ms) l)
        × (map id_of (process_carrier_messages h parse_email threshold read_avg (some ms) l).marks
            ≡ marked_onto ms (map id_of l.marks))
  unfolding process_carrier_messages
  process_carrier_messages-Balanced read_avg ms l b =
      let noted = if ltb 0 (length ms) then l.inbox_writes + 1 else l.inbox_writes in
      process_from-Balanced read_avg (length ms) 0 ms (record l { inbox_writes = noted }) b

  -- With nothing queued behind it a message is never turned away, however slow the validator once was:
  -- a batch of one reaches the handlers.
  pub process_carrier_messages_idle :
      (read_avg : ℕ → ℕ) (m : IncomingMessage) (l : Loop)
      → process_carrier_messages h parse_email threshold read_avg (some (m ∷ [])) l
        ≡ settled h parse_email threshold m (process_message h m.raw l.node) (record l {
          messages_received = bump l.messages_received;
          inbox_writes = l.inbox_writes + 1;
        })
  unfolding process_carrier_messages process_from process_one should_reject_busy
      busy_estimate_exceeds
  process_carrier_messages_idle read_avg m l = ground arith
