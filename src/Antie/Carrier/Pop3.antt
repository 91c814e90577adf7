-- ===== src/Antie/Carrier/Pop3.antt =====
-- antie/src/carrier.rs, `pop3_carrier`: fetching mail from a POP3 mailbox and deleting it there.
pub mod Stuffing
pub mod Session
pub mod Renumber
use axiom_carriers.Base.{
  ℕ, zero, suc, ◌+◌, ◌^◌, ◌==◌, if◌then◌else◌, Option, none, some, List, [], ◌∷◌, ◌++◌, drop,
}
use axiom_carriers.Base.Text.{Text, codes, same, starts_with, trim}
use axiom_carriers.Base.Split.{words}
use axiom_carriers.Base.Decimal.{print, parse}
use axiom_carriers.Base.Result.{Result, ok, err}
use axiom_carriers.Disk.{Bytes}
use axiom_carriers.Antie.Carrier.Wire.{
  Wire, Net, ◌>>=◌, ◌>>◌, pure, fail, ignore, Fail, rejected, unreachable, read_line, write_all,
  with_reader,
}
use axiom_carriers.Antie.Carrier.Wire.Loop.{Next, again, done, loop}

abbrev pub crlf : Bytes
crlf = b'\r' ∷ b'\n' ∷ []

-- A command, on a reader of its own, with the line that answers it.
unfoldable pub command : Text → Net Text
unfolding starts_with
command cmd = do
  write_all (cmd ++ crlf)
  l ← with_reader read_line
  if starts_with l.1 (codes "-ERR") then fail rejected else pure l.1

-- A line that starts with two dots loses one.
abbrev pub unstuffed : Bytes → Bytes
unstuffed line = if starts_with line (codes "..") then drop 1 line else line

abbrev pub ended_or : Bytes → Bytes × Text → Next Bytes Bytes
ended_or acc l = if same (trim l.1) (codes ".") then done acc else again (acc ++ unstuffed l.0)

unfoldable pub multiline_round : Bytes → Net (Next Bytes Bytes)
unfolding trim same starts_with
multiline_round acc = do l ← read_line; pure (ended_or acc l)

unfoldable pub read_multiline : Net Bytes
read_multiline = with_reader (loop multiline_round [])

-- What POP3 gives of a message: its number in this session, and its bytes.
abbrev pub Numbered : Type 0
Numbered = ℕ × Bytes

-- The messages from number `i` on, as many as are left.
unfoldable pub retrieve : ℕ → ℕ → Net (List Numbered)
retrieve zero i = pure []
retrieve (suc left) i = do
  command (codes "RETR " ++ print i)
  raw ← read_multiline
  later ← retrieve left (i + 1)
  pure ((i, raw) ∷ later)

abbrev second : List Text → Option Text
second (_ ∷ w ∷ _) = some w
second _ = none

abbrev count_or_zero : Option Text → ℕ
count_or_zero none = 0
count_or_zero (some s) = elim (parse (2 ^ 64) s) [ some n ↦ n | none ↦ 0 ]

abbrev pub stat_count : Text → ℕ
stat_count stat_line = count_or_zero (second (words stat_line))

module _ (username password : Text) where
  abbrev pub login : Net (Unit {0})
  login = do
    with_reader read_line
    command (codes "USER " ++ username)
    command (codes "PASS " ++ password)
    pure tt

  unfoldable pub check_new : Net (List Numbered)
  check_new = do
    login
    stat_line ← command (codes "STAT")
    messages ← retrieve (stat_count stat_line) 1
    ignore (command (codes "QUIT"))
    pure messages

  unfoldable pub mark_processed : Text → Net (Unit {0})
  mark_processed message_id = do
    login
    command (codes "DELE " ++ message_id)
    ignore (command (codes "QUIT"))
