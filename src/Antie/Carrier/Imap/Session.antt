-- ===== src/Antie/Carrier/Imap/Session.antt =====
-- antie/src/carrier.rs, `ImapCarrier`: what a session sends, and that it ends.
use axiom_carriers.Base.{
  ℕ, true, false, ◌||◌, Option, none, some, List, [], ◌∷◌, ◌++◌, if◌then◌else◌,
}
use axiom_carriers.Base.Text.{Text, codes, has, starts_with, trim, contains}
use axiom_carriers.Base.Result.{ok, err}
use axiom_carriers.Disk.{Bytes}
use axiom_carriers.Antie.Carrier.Wire.{
  Wire, Net, pure, fail, ignore, with_reader, rejected, injected, read_line, write_all,
}
use axiom_carriers.Antie.Carrier.Wire.Loop.{
  again, done, loop, loop-Ends, Ends, Held, Progress, line-Progress, pure-Held, if-Held,
}
use axiom_carriers.Antie.Carrier.Wire.Exact.{exact-Held}
use axiom_carriers.Antie.Carrier.Wire.Script.{
  Total, if-Total, pure-Total, fail-Total, reader-Total, ignore-Total, >>=-Total, read_line-Total,
  write_all-Total,
}
use axiom_carriers.Antie.Carrier.Imap.{
  escaped, crlf, imap_quote, quoted, tag_of, next_counter, behind, after_preamble, answered,
  status_of, command_round, imap_command, read_greeting, literal, literal_size, fetch_round,
  fetch_message, uids_of, fetch_all, open_session, check_new,
}

answered-Held :
    (l : Text) (lines : List Text) (o : Option Text) (w : Wire) → Held w (answered l lines o w)
answered-Held l lines none w = pure-Held {A = List Text} (again (lines ++ (l ∷ []))) w
answered-Held l lines (some status) w =
    if-Held {S = List Text} {A = List Text} (starts_with status (codes "OK"))
      (pure (done (lines ++ (l ∷ [])))) (fail rejected) w tt (λ e. cc)

command-Progress :
    (tag : Text) (lines : List Text) (w : Wire) → Progress w (command_round tag lines w)
unfolding command_round
command-Progress tag lines w =
    line-Progress (λ l. answered (trim l.1) lines (status_of tag (trim l.1))) w
      (λ l w'. answered-Held (trim l.1) lines (status_of tag (trim l.1)) w')

imap_command-Total : (tag cmd : Text) → Total (imap_command tag cmd)
unfolding imap_command
imap_command-Total tag cmd =
    >>=-Total (write_all (tag ++ b' ' ∷ (cmd ++ crlf))) _
      (write_all-Total (tag ++ b' ' ∷ (cmd ++ crlf)))
      (λ _.
        reader-Total (loop (command_round tag) [])
          (loop-Ends (command_round tag) (command-Progress tag) []))

literal-Held : (acc : Bytes) (o : Option ℕ) (w : Wire) → Held w (literal acc o w)
literal-Held acc none w = pure-Held {A = Bytes} (again acc) w
literal-Held acc (some size) w = exact-Held {A = Bytes} size (λ bytes. again (acc ++ bytes)) w

pub fetch-Progress : (tag : Text) (acc : Bytes) (w : Wire) → Progress w (fetch_round tag acc w)
unfolding fetch_round
fetch-Progress tag acc w =
    line-Progress
      (λ l.
        if starts_with (trim l.1) tag
        then pure (done acc)
        else literal acc (literal_size (trim l.1)))
      w
      (λ l w'.
        if-Held {S = Bytes} {A = Bytes} (starts_with (trim l.1) tag) (pure (done acc))
          (literal acc (literal_size (trim l.1))) w' tt
          (literal-Held acc (literal_size (trim l.1)) w'))

-- A fetch of a message ends on every connection. In particular it fails where the server closes the
-- connection inside the message, and reads no empty lines for ever.
pub fetch_message-Total : (tag uid : Text) → Total (fetch_message tag uid)
unfolding fetch_message
fetch_message-Total tag uid =
    >>=-Total (write_all (tag ++ (codes " UID FETCH " ++ (uid ++ (codes " BODY.PEEK[]" ++ crlf)))))
      _ (write_all-Total (tag ++ (codes " UID FETCH " ++ (uid ++ (codes " BODY.PEEK[]" ++ crlf)))))
      (λ _.
        reader-Total (loop (fetch_round tag) [])
          (loop-Ends (fetch_round tag) (fetch-Progress tag) []))

fetch_all-Total : (n : ℕ) (uids : List Text) → Total (fetch_all n uids)
unfolding fetch_all
fetch_all-Total n [] = let nothing : List (Text × Bytes) = [] in pure-Total nothing
fetch_all-Total n (uid ∷ uids) =
    >>=-Total (fetch_message (tag_of n) uid) _ (fetch_message-Total (tag_of n) uid) λ raw.
      >>=-Total (fetch_all (next_counter n) uids) _ (fetch_all-Total (next_counter n) uids)
        λ later. pure-Total ((uid, raw) ∷ later)

quoted-Total : (s : Text) → Total (quoted s)
unfolding imap_quote
quoted-Total s w =
    elim (has b'\r' s || has b'\n' s)
      as (λ b. Ends {A = Text} (if b then err injected else ok (b'"' ∷ (escaped s ++ b'"' ∷ [])))) [
        | true ↦ λ e. cc
        | false ↦ tt
      ]

read_greeting-Total : Total read_greeting
unfolding read_greeting
read_greeting-Total =
    >>=-Total (with_reader read_line) _ (reader-Total read_line read_line-Total) λ l.
      if-Total (contains l.1 (codes "OK")) (pure tt) (fail rejected) (pure-Total tt)
        (fail-Total (Unit {0}) rejected (λ e. cc))

abbrev logout : ℕ → Net (List Text)
logout n = imap_command (tag_of n) (codes "LOGOUT")

module _ (username password inbox_folder : Text) where
  open_session-Total : (n : ℕ) → Total (open_session username password inbox_folder n)
  unfolding open_session
  open_session-Total n = >>=-Total read_greeting _ read_greeting-Total λ _.
      >>=-Total (quoted username) _ (quoted-Total username) λ user.
        >>=-Total (quoted password) _ (quoted-Total password) λ pass.
          >>=-Total (imap_command (tag_of n) (codes "LOGIN " ++ (user ++ b' ' ∷ pass))) _
            (imap_command-Total _ _)
            λ _. >>=-Total (quoted inbox_folder) _ (quoted-Total inbox_folder) λ folder.
              >>=-Total (imap_command (tag_of (next_counter n)) (codes "SELECT " ++ folder)) _
                (imap_command-Total _ _) (λ _. pure-Total tt)

  -- A fetch ends on every connection, with the messages or with a failure.
  pub check_new-Ends : (n : ℕ) (w : Wire) → Ends (check_new username password inbox_folder n w).0
  unfolding check_new
  check_new-Ends n =
      >>=-Total (open_session username password inbox_folder n) _ (open_session-Total n) λ _.
        >>=-Total (imap_command (tag_of (after_preamble n)) (codes "UID SEARCH UNSEEN")) _
          (imap_command-Total _ _)
          λ lines.
            >>=-Total (fetch_all (next_counter (after_preamble n)) (uids_of lines)) _
              (fetch_all-Total _ _)
              λ messages.
                >>=-Total
                  (ignore (logout (behind (next_counter (after_preamble n)) (uids_of lines)))) _
                  (ignore-Total (logout (behind (next_counter (after_preamble n)) (uids_of lines))))
                  (λ _. pure-Total messages)
