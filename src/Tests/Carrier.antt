-- ===== src/Tests/Carrier.antt =====
-- antie/src/carrier.rs on the connections of a few servers, and antie/src/config.rs on a configuration.
use axiom_carriers.Base.{
  ℕ, Bool, true, false, ◌==◌, ◌+◌, if◌then◌else◌, Option, none, some, List, [], ◌∷◌, ◌++◌, ◌≡◌,
  refl, ◌↔◌, All, inl, map, arith, length,
}
use axiom_carriers.Base.Text.{Text, codes, has, starts_with, same, contains, trim}
use axiom_carriers.Base.Result.{ok}
use axiom_carriers.Disk.{Bytes, Disk, refused, works}
use axiom_carriers.Antie.Maildir.{Maildir}
use axiom_carriers.Antie.Pull.{IncomingMessage, Funnel}
use axiom_carriers.Antie.Config.{ImapConfig, MailCred, CarriersConfig, load}
use axiom_carriers.Antie.Config.Accepts.{IsSound}
use axiom_carriers.Antie.Config.Secrets.{filled, load_iff}
use axiom_carriers.Antie.Carrier.Wire.{Event, received, Wire, lf, read_line}
use axiom_carriers.Antie.Carrier.Wire.Laws.{Leaves, read_line-pending}
use axiom_carriers.Antie.Carrier.Wire.Loop.{Ends}
use axiom_carriers.Antie.Carrier.Pop3
use axiom_carriers.Antie.Carrier.Pop3.{command, crlf}
use axiom_carriers.Antie.Carrier.Pop3.Session.{IsReading, check_new-Sends}
use axiom_carriers.Antie.Carrier.Pop3.Renumber.{command_drops}
use axiom_carriers.Antie.Carrier.Imap
use axiom_carriers.Antie.Carrier.Imap.{fetch_message, imap_quote}
use axiom_carriers.Antie.Carrier.Imap.Quote.{read_quoted, read_quoted-imap_quote}
use axiom_carriers.Antie.Carrier.Imap.Literal.{Announces, fetch_message_exact}
use axiom_carriers.Antie.Carrier.Smtp.{SmtpCarrier}
use axiom_carriers.Antie.Carrier.Smtp.Session.{script}
use axiom_carriers.Antie.Carrier.Smtp.Transparent

abbrev server : List Event → Wire
server es = record { buffer = []; incoming = es; sent = []; writes = []; eofs = 0 }

-- The answer of a server, as it comes in one read.
abbrev says : Text → Event
says s = received (s ++ b'\r' ∷ lf ∷ [])

-- A line that is spread over the buffer and two reads.
abbrev spread : Wire
spread = record {
  buffer = codes "+";
  incoming = received (codes "OK") ∷ received (b'\r' ∷ lf ∷ codes "1") ∷ received (codes "2") ∷ [];
  sent = [];
  writes = [];
  eofs = 0;
}

abbrev ok_line : Bytes
ok_line = codes "+OK" ++ b'\r' ∷ []

read_line-pending_example :
    ((read_line spread).0 ≡ ok (ok_line ++ lf ∷ [], ok_line ++ lf ∷ []))
    × Leaves spread (codes "12") (read_line spread).1
unfolding has axiom_carriers.Antie.Carrier.Wire.Utf8.decode
read_line-pending_example =
    read_line-pending ok_line (codes "12") (ok_line ++ lf ∷ []) spread refl refl refl

-- A message of two lines, the first with a dot in front.
abbrev letter_lines : List Bytes
letter_lines = (codes ".a" ++ b'\r' ∷ []) ∷ (codes "b" ++ b'\r' ∷ []) ∷ []

abbrev letter_wire : Wire
letter_wire = server (
    received (codes "..a" ++ b'\r' ∷ [])
    ∷ received (lf ∷ codes "b")
    ∷ received (b'\r' ∷ lf ∷ codes "." ++ b'\r' ∷ lf ∷ [])
    ∷ [])

abbrev relay : SmtpCarrier
relay = record {
  server = codes "relay";
  username = none;
  password = none;
  use_tls = false;
  from_address = codes "v@w";
}

-- A mailbox with one message.
abbrev mailbox : Wire
mailbox = server (
    says (codes "+OK")
    ∷ says (codes "+OK")
    ∷ says (codes "+OK")
    ∷ says (codes "+OK 1 3")
    ∷ says (codes "+OK")
    ∷ says (codes "hi")
    ∷ says (codes ".")
    ∷ says (codes "+OK")
    ∷ [])

check_new-Sends_example :
    (new : List Bytes) × ((Pop3.check_new (codes "u") (codes "p") mailbox).1.sent
      ≡ mailbox.sent ++ new)
    × All IsReading new
unfolding has
check_new-Sends_example = check_new-Sends (codes "u") (codes "p") refl refl mailbox

-- The server sends the message in the read that holds its answer.
abbrev eager : Wire
eager = server (received (codes "+OK" ++ b'\r' ∷ lf ∷ codes "hi") ∷ says (codes ".") ∷ [])

command_drops_example : command (codes "RETR 1") eager ≡ (
  ok (ok_line ++ lf ∷ []),
  record eager {
    buffer = [];
    incoming = says (codes ".") ∷ [];
    sent = (codes "RETR 1" ++ crlf) ∷ [];
  },
)
unfolding has starts_with
command_drops_example =
    command_drops (codes "RETR 1") ok_line (codes "hi") (says (codes ".") ∷ []) eager refl refl refl
      refl refl

abbrev inbox : Maildir
inbox = record { base = codes "/in" }

-- Of nine calls the seventh is refused, so the third letter is not staged.
abbrev filling_disk : Disk
filling_disk = record {
  files = [];
  turns = works 0 ∷ works 0 ∷ works 0 ∷ works 0 ∷ works 0 ∷ works 0 ∷ refused ∷ [];
  seen = [];
}

abbrev fetched : Text → Bytes → IncomingMessage
fetched n raw = record { id = n; raw = raw; name = n }

abbrev funnel : Funnel
funnel = record { disk = filling_disk; marks = []; inbox_writes = 0 }

-- A password with the two characters that are escaped.
abbrev odd_password : Text
odd_password = codes "a" ++ b'\\' ∷ b'"' ∷ codes "b"

abbrev quoted_password : Text
quoted_password = b'"' ∷ codes "a" ++ b'\\' ∷ b'\\' ∷ b'\\' ∷ b'"' ∷ codes "b" ++ b'"' ∷ []

read_quoted-imap_quote_example :
    (read_quoted (quoted_password ++ crlf) ≡ some (odd_password, crlf))
    × (has b'\n' quoted_password ≡ false)
    × (has b'\r' quoted_password ≡ false)
unfolding imap_quote has
read_quoted-imap_quote_example = read_quoted-imap_quote odd_password quoted_password crlf refl

-- A message that looks like the end of the answer.
abbrev trap : Bytes
trap = codes "A4 " ++ lf ∷ []

abbrev announced : Bytes
announced = codes "* 1 FETCH (BODY[] {4}" ++ b'\r' ∷ []

abbrev closing : Bytes
closing = codes ")" ++ b'\r' ∷ []

abbrev tagged : Bytes
tagged = codes "A4 OK" ++ b'\r' ∷ []

fetch_lines : Announces (codes "A4") 4 announced closing tagged
unfolding has axiom_carriers.Base.Text.starts_with trim
    axiom_carriers.Antie.Carrier.Imap.literal_size
fetch_lines = record {
  first = record { one = refl; ascii = refl };
  second = record { one = refl; ascii = refl };
  third = record { one = refl; ascii = refl };
  untagged = refl;
  sized = refl;
  behind = refl;
  unsized = refl;
  ends = refl;
}

abbrev literal_wire : Wire
literal_wire = server (
    received (announced ++ lf ∷ codes "A4")
    ∷ received (codes " " ++ lf ∷ (closing ++ lf ∷ (tagged ++ lf ∷ [])))
    ∷ [])

fetch_message_exact_example : (fetch_message (codes "A4") (codes "7") literal_wire).0 ≡ ok trap
fetch_message_exact_example =
    fetch_message_exact (codes "A4") trap announced closing tagged [] fetch_lines (codes "7")
      literal_wire refl refl

abbrev relay_wire : Wire
relay_wire = server (
    says (codes "220 relay")
    ∷ received (codes "250-relay" ++ b'\r' ∷ lf ∷ codes "250 SIZE" ++ b'\r' ∷ lf ∷ [])
    ∷ says (codes "250 ok")
    ∷ says (codes "250 ok")
    ∷ says (codes "354 go on")
    ∷ says (codes "250 queued")
    ∷ [])

abbrev told_wire : Wire
told_wire = record (server []) { sent = script (λ t. t) relay (codes "c@d") (codes "mail") }

abbrev account : ImapConfig
account = record {
  enabled = false;
  server = codes "localhost";
  port = 143;
  username = codes "u";
  password = codes "old";
  use_tls = false;
  inbox_folder = codes "INBOX";
  use_idle = true;
}

abbrev config : CarriersConfig
config = record {
  maildir = some (record { inbox = codes "/in"; outbox = codes "/out" });
  imap = account ∷ [];
  pop3 = [];
  advertise = codes "tot:1.2.3.4:7400" ∷ [];
}

abbrev secrets : List MailCred
secrets = record { username = codes "u"; password = codes "new" } ∷ []

abbrev config_with_secrets : CarriersConfig
config_with_secrets = record config { imap = record account { password = codes "new" } ∷ [] }

load_iff_example : (load (λ host. false) secrets 500 config ≡ ok config_with_secrets) ↔ (
    (config_with_secrets ≡ filled secrets config) × IsSound (λ host. false) 500 config_with_secrets)
load_iff_example = load_iff (λ host. false) 500 secrets config config_with_secrets

load_works : load (λ host. false) secrets 500 config ≡ ok config_with_secrets
unfolding load same
load_works = refl
