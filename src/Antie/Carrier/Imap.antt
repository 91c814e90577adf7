-- ===== src/Antie/Carrier/Imap.antt =====
-- antie/src/carrier.rs, `imap_carrier`: fetching mail from an IMAP mailbox, deleting it there, and
-- waiting for more.
pub mod Quote
pub mod Session
pub mod Literal
use axiom_carriers.Base.{
  ℕ, zero, suc, ◌+◌, ◌-◌, ◌%◌, ◌^◌, ◌==◌, if◌then◌else◌, ltb, Bool, true, false, ◌&&◌, ◌||◌, Option,
  none, some, List, [], ◌∷◌, ◌++◌, any, length, take,
}
use axiom_carriers.Base.Text.{
  Text, codes, has, same, starts_with, strip_prefix, contains, trim, rsplit_once,
}
use axiom_carriers.Base.Split.{words}
use axiom_carriers.Base.Decimal.{print, parse}
use axiom_carriers.Base.Result.{Result, ok, err}
use axiom_carriers.Disk.{Bytes}
use axiom_carriers.Antie.Carrier.Wire.{
  Event, received, broken, silent, Wire, Net, ◌>>=◌, ◌>>◌, pure, fail, ignore, Fail, rejected,
  injected, unread, closed, unsupported, read_line, read_exact, write_all, with_reader,
}
use axiom_carriers.Antie.Carrier.Wire.Loop.{Next, again, done, loop}

abbrev pub crlf : Bytes
crlf = b'\r' ∷ b'\n' ∷ []

-- `{:04}`
abbrev padded : Text → Text
padded s = if ltb (length s) 4 then take (4 - length s) (codes "0000") ++ s else s

-- The tag that the session's counter gives.
abbrev pub tag_of : ℕ → Text
tag_of n = b'A' ∷ padded (print n)

-- `fetch_add(1)` on an `AtomicU32`
abbrev pub next_counter : ℕ → ℕ
next_counter n = (n + 1) % 2 ^ 32

-- `replace('\\', "\\\\")` and then `replace('"', "\\\"")`: each of the two gets a backslash before it.
unfoldable pub escaped : Text → Text
escaped [] = []
escaped (c ∷ s) =
    let rest = escaped s in if c == b'\\' || c == b'"' then b'\\' ∷ c ∷ rest else c ∷ rest

unfoldable pub imap_quote : Text → Result Fail Text
unfolding escaped
imap_quote s =
    if has b'\r' s || has b'\n' s then err injected else ok (b'"' ∷ (escaped s ++ b'"' ∷ []))

-- The status behind the tag, if the line is the tagged one.
abbrev status_of : Text → Text → Option Text
status_of tag l = elim (strip_prefix l tag) [
  | none ↦ none
  | some rest ↦ strip_prefix rest (codes " ")
]

abbrev pub answered : Text → List Text → Option Text → Net (Next (List Text) (List Text))
answered l lines none = pure (again (lines ++ (l ∷ [])))
answered l lines (some status) =
    if starts_with status (codes "OK") then pure (done (lines ++ (l ∷ []))) else fail rejected

unfoldable pub command_round : Text → List Text → Net (Next (List Text) (List Text))
unfolding strip_prefix starts_with trim
command_round tag lines = do l ← read_line; answered (trim l.1) lines (status_of tag (trim l.1))

-- A command under its tag, with the lines up to the tagged one.
unfoldable pub imap_command : Text → Text → Net (List Text)
imap_command tag cmd = do
  write_all (tag ++ b' ' ∷ (cmd ++ crlf))
  with_reader (loop (command_round tag) [])

unfoldable pub read_greeting : Net (Unit {0})
unfolding contains
read_greeting = do
  l ← with_reader read_line
  if contains l.1 (codes "OK") then pure tt else fail rejected

abbrev init : Text → Text
init [] = []
init (x ∷ []) = []
init (x ∷ y ∷ s) = x ∷ init (y ∷ s)

abbrev ends_with_brace : Text → Bool
ends_with_brace [] = false
ends_with_brace (x ∷ []) = x == b'}'
ends_with_brace (x ∷ y ∷ s) = ends_with_brace (y ∷ s)

abbrev parsed_size : Option (Text × Text) → Option ℕ
parsed_size none = none
parsed_size (some (_, size)) = parse (2 ^ 64) (init size)

-- The size of the literal that a line announces at its end.
unfoldable pub literal_size : Text → Option ℕ
unfolding rsplit_once parse
literal_size l = if ends_with_brace l then parsed_size (rsplit_once b'{' l) else none

abbrev pub literal : Bytes → Option ℕ → Net (Next Bytes Bytes)
literal acc none = pure (again acc)
literal acc (some size) = do bytes ← read_exact size; pure (again (acc ++ bytes))

unfoldable pub fetch_round : Text → Bytes → Net (Next Bytes Bytes)
unfolding trim starts_with literal_size
fetch_round tag acc = do
  l ← read_line
  if starts_with (trim l.1) tag then pure (done acc) else literal acc (literal_size (trim l.1))

unfoldable pub fetch_message : Text → Text → Net Bytes
fetch_message tag uid = do
  write_all (tag ++ (codes " UID FETCH " ++ (uid ++ (codes " BODY.PEEK[]" ++ crlf))))
  with_reader (loop (fetch_round tag) [])

abbrev pub quoted : Text → Net Text
quoted s w = (imap_quote s, w)

abbrev after_two : List Text → List Text
after_two (_ ∷ _ ∷ ws) = ws
after_two _ = []

-- The ids on the lines that answer a search.
unfoldable pub uids_of : List Text → List Text
unfolding words starts_with
uids_of [] = []
uids_of (l ∷ ls) =
    let later = uids_of ls in
    if starts_with l (codes "* SEARCH") then after_two (words l) ++ later else later

-- The messages of these ids, each under its own tag.
unfoldable pub fetch_all : ℕ → List Text → Net (List (Text × Bytes))
fetch_all n [] = pure []
fetch_all n (uid ∷ uids) = do
  raw ← fetch_message (tag_of n) uid
  later ← fetch_all (next_counter n) uids
  pure ((uid, raw) ∷ later)

-- The counter behind the fetches.
abbrev pub behind : ℕ → List Text → ℕ
behind n [] = n
behind n (_ ∷ uids) = behind (next_counter n) uids

-- The counter behind `LOGIN` and `SELECT`.
abbrev pub after_preamble : ℕ → ℕ
after_preamble n = next_counter (next_counter n)

-- The counter of the tags when a session starts is `n`; each command takes the next one.
module _ (username password inbox_folder : Text) where
  unfoldable pub open_session : ℕ → Net (Unit {0})
  open_session n = do
    read_greeting
    user ← quoted username
    pass ← quoted password
    imap_command (tag_of n) (codes "LOGIN " ++ (user ++ b' ' ∷ pass))
    folder ← quoted inbox_folder
    imap_command (tag_of (next_counter n)) (codes "SELECT " ++ folder)
    pure tt

  unfoldable pub check_new : ℕ → Net (List (Text × Bytes))
  check_new n = do
    open_session n
    lines ← imap_command (tag_of (after_preamble n)) (codes "UID SEARCH UNSEEN")
    messages ← fetch_all (next_counter (after_preamble n)) (uids_of lines)
    ignore (
        imap_command (tag_of (behind (next_counter (after_preamble n)) (uids_of lines)))
          (codes "LOGOUT"))
    pure messages

  unfoldable pub mark_processed : ℕ → Text → Net (Unit {0})
  mark_processed n message_id = do
    open_session n
    imap_command (tag_of (after_preamble n))
        (codes "UID STORE " ++ (message_id ++ codes " +FLAGS (\\Deleted)"))
    imap_command (tag_of (next_counter (after_preamble n))) (codes "EXPUNGE")
    ignore (imap_command (tag_of (after_preamble (after_preamble n))) (codes "LOGOUT"))
