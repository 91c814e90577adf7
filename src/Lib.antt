-- ===== src/Lib.antt =====
-- AXIOM carriers: a model of the two programs that bring messages to a validator and take its answers
-- back, with the theorems that make them correct.
--
-- ANTIE (antie/src) is the email gateway. Pull carriers fetch mail into one maildir inbox; the dispatch
-- loop takes each message from there, parses it, passes it to the handler of its type, and answers the
-- sender. A witness request goes through gates, Core's check and Lambda; what Lambda hands back for
-- others (a cheque, a certificate, a notice, an audit request) is delivered by the node. TOT (tot/src) is
-- the direct carrier beside it: a socket on which a client submits a message, which TOT writes into the
-- same inbox, and on which a session receives its replies, which ANTIE deposits in a directory.
--
-- The files, and the code that they are about:
--   Base and its children: text as code points, decimal numbers as `format!` prints and `parse` reads
--     them, lists measured by native numbers, `Result` and `?`, a hash map as an association list.
--   Disk: files by path and the calls that the code makes. The turns of a disk decide each call in
--     order: it works, it is refused, or a write stops after some bytes; `seen` logs every state that
--     another process could observe. Disk/Publish has the rules for writing beside a file and renaming
--     over it, Disk/Holds what a success leaves behind.
--   Antie/CareOf (antie/src/care_of.rs): `parse_care_of`, `plan_receiver_delivery`, `deposit_atomic`.
--   Antie/Outbound (antie/src/config.rs): `OutboundConfig::outbox_for`.
--   Antie/Custody, Antie/SkipList, Antie/UncleSink, Antie/Maildir (the files of those names in
--     antie/src): where replies, skipped cheques, copies and fetched mail are written.
--   Antie/Node: what the handlers of antie/src/gateway.rs share, the disk, the sent mails, the counters.
--   Antie/Response: `send_response`. Antie/Dispatch: `process_message`. Antie/Busy:
--     `process_carrier_messages` with its busy gate. Antie/Witness: the gates and the call of Lambda in
--     `handle_witness_request`; Antie/Delivery: what the same function delivers. Antie/WalletLimit:
--     `WalletRateLimiter`. Antie/Handlers: the other handlers, with their replies (Coded), their calls of
--     Lambda (Asked) and the answers to audits (Audits). Antie/Pull: `deliver_carrier_messages` and `pull_loop`. Antie/Backoff:
--     `carrier_backoff`, and `note_carrier_attempt` of antie/src/stats.rs.
--   Antie/Email (antie/src/email.rs): `parse_email_outcome` with the subject, the body and the custody header
--     of a mail, and `build_response`; Antie/Email/Outgoing: the mails that the node sends of its own accord,
--     and `try_parse_vbc_delivery`.
--   Antie/Carrier/Wire (antie/src/carrier.rs, `carrier_io`): a connection to a mail server. Its children
--     have the laws of reading (Laws, Spread, Exact), of loops that take from it (Loop, Unroll), and of
--     what a step sends (Script, Told). Antie/Carrier/Pop3, Imap and Smtp (`pop3_carrier`, `imap_carrier`,
--     `smtp_carrier` with `split_carrier`): the sessions of the three protocols. Antie/Carrier/Ends: that
--     they end.
--   Antie/Config (antie/src/config.rs, `AntieConfig::load`, and `CarriersConfig` of antie/src/carrier.rs):
--     the checks at start, and the passwords of the mailboxes.
--   Antie/Health (antie/src/health.rs, antie/src/stats.rs): heartbeats, verdict and stall watchdog.
--   Tot/Maildir (tot/src/maildir.rs) and Tot/Route, Tot/Stream, Tot/RateLimiter, Tot/Intake, Tot/Stamp,
--     Tot/Utf8 (tot/src/main.rs): the inbox, the routes, `PrefixedStream`, the limiter, the two ways
--     in, and `stamp_session` with the decoding that it does.
--   Tot/Session (tot/src/main.rs, `session_leg`, `pump_replies`, `SessionDir`): a session as the list of
--     what happens to it, with the deposits of antie/src/custody.rs on the same disk between its steps.
--     Listing is about the files that count as replies, Pumped about one look into the directory,
--     Genuine and Faithful about what reaches the client, Cleared about the session's end.
--   Tests and its children: inputs on which the theorems are used, and runs of the code.
--
-- State is passed explicitly: a disk, a node, a batch of the dispatch loop, a limiter. Failures are
-- values, and which calls fail is data (the turns of the disk, the turns of the sender), so a theorem
-- holds for every pattern of failures. Counters and gauges are as wide as in the code and wrap. Loops
-- recurse on their list; a loop that reads from a connection has as many rounds as there are bytes and
-- events left, and each round takes some, so they are enough (Antie/Carrier/Wire/Loop); `print` runs on `n + 1` rounds, and each round drops a digit, so they are
-- enough. Times are numbers of a clock that does not go back.
--
-- Core, Lambda, the mail and CBOR codecs, PGP and the mail servers are not in the repository, or are
-- thin wrappers of what is not: they are parameters, records of functions such as `Services`,
-- `Carriers`, `Replies` and `Handlers`, and the theorems hold for any. Error texts and log lines are
-- left out, and an error keeps its kind. A mail server is the list of what each read
-- returns, so a theorem on a connection holds for every server and every way of cutting its bytes. How
-- a server reads what is sent to it is written down from the standards, next to the theorem that needs
-- it. Not modelled: `connect` (system calls and TLS), `idle_wait` and the maildir carrier of
-- antie/src/carrier.rs, `body_entropy_bits` of antie/src/email.rs (floating point), the start and the
-- carrier loops of antie/src/gateway.rs beside `pull_loop`, antie/src/lambda_client.rs (framing and
-- supervision of a process), the sweep
-- at startup of tot/src/main.rs, tot/src/tunnel.rs and tot/src/sandbox.rs (pure I/O), and
-- fatmama, which is a development server in another language.
pub mod Antie
pub mod Base
pub mod Disk
pub mod Tests
pub mod Tot
