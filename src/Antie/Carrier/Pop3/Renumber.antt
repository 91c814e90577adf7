-- ===== src/Antie/Carrier/Pop3/Renumber.antt =====
-- antie/src/carrier.rs, `pop3_carrier`, with antie/src/gateway.rs, `deliver_carrier_messages`: what is
-- lost between two readers, and between two sessions.
use axiom_carriers.Base.{
  ℕ, zero, suc, ◌^◌, Bool, true, false, not, inl, inr, Option, none, some, List, [], ◌∷◌, ◌++◌, ◌≡◌,
  refl, sym, ap, ◌∙◌, if◌then◌else◌,
}
use axiom_carriers.Base.Text.{split_once-append, Text, codes, has, starts_with}
use axiom_carriers.Base.Decimal.{parse}
use axiom_carriers.Base.Result.{Result, ok}
use axiom_carriers.Disk.{Bytes}
use axiom_carriers.Tot.Utf8.{is_ascii}
use axiom_carriers.Antie.Maildir.{Maildir}
use axiom_carriers.Antie.Pull.{Mark, processed, failed}
use axiom_carriers.Antie.Carrier.Wire.{
  Net, Fail, next_line, line, Event, received, Wire, lf, write_all, read_line, with_reader, pure,
  fail, ◌>>=◌, rejected,
}
use axiom_carriers.Antie.Carrier.Wire.Utf8.{decode-ascii}
use axiom_carriers.Antie.Carrier.Wire.Laws.{bind-ok, write_works, next_line-pull, pull_done}
use axiom_carriers.Antie.Carrier.Pop3.{crlf, command}

first_line :
    (l more : Bytes) (es : List Event)
    → has lf l ≡ false
    → next_line [] (received (l ++ lf ∷ more) ∷ es) ≡ line (l ++ lf ∷ []) more es
unfolding axiom_carriers.Base.Text.split_once
first_line [] more es one =
    next_line-pull [] _ refl ∙ pull_done [] lf more es [] more (split_once-append lf [] more one)
first_line (x ∷ l) more es one =
    next_line-pull [] _ refl
    ∙ pull_done [] x (l ++ lf ∷ more) es (x ∷ l) more (split_once-append lf (x ∷ l) more one)

first_read :
    (l more : Bytes) (es : List Event) (w : Wire)
    → has lf l ≡ false
    → is_ascii (l ++ lf ∷ []) ≡ true
    → w.incoming ≡ received (l ++ lf ∷ more) ∷ es
    → read_line (record w { buffer = [] })
      ≡ (ok (l ++ lf ∷ [], l ++ lf ∷ []), record w { buffer = more; incoming = es })
unfolding read_line
first_read l more es w one ascii arrives =
    rw (arrives, first_line l more es one, decode-ascii (l ++ lf ∷ []) ascii) refl

with_reader_first :
    (l more : Bytes) (es : List Event) (w : Wire)
    → has lf l ≡ false
    → is_ascii (l ++ lf ∷ []) ≡ true
    → w.incoming ≡ received (l ++ lf ∷ more) ∷ es
    → with_reader read_line w
      ≡ (ok (l ++ lf ∷ [], l ++ lf ∷ []), record w { buffer = []; incoming = es })
with_reader_first l more es w one ascii arrives =
    ap (λ (r : Result Fail (Bytes × Text) × Wire). (r.0, record r.1 { buffer = [] }))
      (first_read l more es w one ascii arrives)

abbrev accepted : Bytes × Text → Net Text
accepted l = if starts_with l.1 (codes "-ERR") then fail rejected else pure l.1

-- A command keeps the answer's line only: what the server sends behind it in the same read, such as a
-- message behind the answer of `RETR`, is gone, and the next step starts with the read after it.
pub command_drops :
    (cmd : Text) (l more : Bytes) (es : List Event) (w : Wire)
    → has lf l ≡ false
    → is_ascii (l ++ lf ∷ []) ≡ true
    → starts_with (l ++ lf ∷ []) (codes "-ERR") ≡ false
    → w.incoming ≡ received (l ++ lf ∷ more) ∷ es
    → w.writes ≡ []
    → command cmd w ≡ (
      ok (l ++ lf ∷ []),
      record w { buffer = []; incoming = es; sent = w.sent ++ ((cmd ++ crlf) ∷ []) },
    )
unfolding command
command_drops cmd l more es w one ascii fine arrives works =
    let w' = record w { sent = w.sent ++ ((cmd ++ crlf) ∷ []) } in
    let wrote = write_works (cmd ++ crlf) w works in
    let read = with_reader_first l more es w' one ascii arrives in
    bind-ok (write_all (cmd ++ crlf)) (λ _. with_reader read_line >>= accepted) w tt
      (ap (λ r. r.0) wrote)
    ∙ ap (λ (r : Result Fail (Unit {0}) × Wire). (with_reader read_line >>= accepted) r.1) wrote
    ∙ bind-ok (with_reader read_line) accepted w' (l ++ lf ∷ [], l ++ lf ∷ []) (ap (λ r. r.0) read)
    ∙ ap (λ (r : Result Fail (Bytes × Text) × Wire). accepted (l ++ lf ∷ [], l ++ lf ∷ []) r.1) read
    ∙ rw fine refl

-- A mailbox numbers its messages from 1 in every session, and deletes as the session ends.
abbrev deleted : ℕ → List Bytes → List Bytes
deleted zero box = box
deleted (suc zero) [] = []
deleted (suc zero) (m ∷ box) = box
deleted (suc (suc n)) [] = []
deleted (suc (suc n)) (m ∷ box) = m ∷ deleted (suc n) box

abbrev numbered : Option ℕ → List Bytes → List Bytes
numbered none box = box
numbered (some n) box = deleted n box

-- The mailbox after the marks, the latest first, each in a session of its own.
unfoldable pub replayed : List Mark → List Bytes → List Bytes
unfolding parse
replayed [] box = box
replayed (failed id ∷ marks) box = replayed marks box
replayed (processed id ∷ marks) box = numbered (parse (2 ^ 64) id) (replayed marks box)
