-- ===== src/Antie/Carrier/Pop3/Session.antt =====
-- antie/src/carrier.rs, `Pop3Carrier`: what a session sends, and that it ends.
use axiom_carriers.Base.{
  ℕ, zero, suc, ◌+◌, Bool, true, false, ◌||◌, List, [], ◌∷◌, ◌++◌, ◌≡◌, refl, if◌then◌else◌,
}
use axiom_carriers.Base.Text.{Text, codes, has, starts_with}
use axiom_carriers.Base.Decimal.{print, is_digit, print-digits, has-digits}
use axiom_carriers.Disk.{Bytes}
use axiom_carriers.Antie.Carrier.Wire.{
  lf, Wire, Net, ◌>>=◌, pure, fail, ignore, with_reader, rejected, read_line, write_all,
}
use axiom_carriers.Antie.Carrier.Wire.Loop.{
  loop, loop-Ends, Ends, Progress, line-Progress, pure-Held,
}
use axiom_carriers.Antie.Carrier.Wire.Script.{
  Total, pure-Total, ignore-Total, if-Total, if-Sends, >>=-Total, read_line-Total, write_all-Total,
  Sends, >>=-Sends, loop-Sends, read_line-Sends, write_all-Sends, pure-Sends, fail-Sends,
  reader-Sends, ignore-Sends,
}
use axiom_carriers.Antie.Carrier.Pop3.{
  Numbered, crlf, ended_or, command, multiline_round, read_multiline, retrieve, stat_count, login,
  check_new,
}

-- The answer of a command.
abbrev accepted : Bytes × Text → Net Text
accepted l = if starts_with l.1 (codes "-ERR") then fail rejected else pure l.1

accepted-Total : (l : Bytes × Text) → Total (accepted l)
accepted-Total l =
    if-Total (starts_with l.1 (codes "-ERR")) (fail rejected) (pure l.1) (λ w e. cc) (λ w. tt)

command-Total : (cmd : Text) → Total (command cmd)
unfolding command
command-Total cmd =
    >>=-Total (write_all (cmd ++ crlf)) (λ _. with_reader read_line >>= accepted)
      (write_all-Total (cmd ++ crlf))
      (λ _. >>=-Total (with_reader read_line) accepted (λ w. read_line-Total _) accepted-Total)

round-Progress : (acc : Bytes) (w : Wire) → Progress w (multiline_round acc w)
unfolding multiline_round
round-Progress acc w =
    line-Progress (λ l. pure (ended_or acc l)) w (λ l w'. pure-Held (ended_or acc l) w')

read_multiline-Total : Total read_multiline
unfolding read_multiline
read_multiline-Total w = loop-Ends multiline_round round-Progress [] _

retrieve-Total : (left i : ℕ) → Total (retrieve left i)
unfolding retrieve
retrieve-Total zero i = λ w. tt
retrieve-Total (suc left) i =
    >>=-Total (command (codes "RETR " ++ print i)) _ (command-Total _) λ _.
      >>=-Total read_multiline _ read_multiline-Total λ raw.
        >>=-Total (retrieve left (i + 1)) _ (retrieve-Total left (i + 1))
          (λ later. pure-Total ((i, raw) ∷ later))

module _ (username password : Text) where
  login-Total : Total (login username password)
  login-Total =
      >>=-Total (with_reader read_line) _ (λ w. read_line-Total _)
        λ _. >>=-Total (command (codes "USER " ++ username)) _ (command-Total _) λ _.
          >>=-Total (command (codes "PASS " ++ password)) _ (command-Total _) (λ _. pure-Total tt)

  -- A fetch ends on every connection: whatever the server sends, and wherever it stops sending, the
  -- session gives its messages or fails, and no read loop runs on.
  pub check_new-Ends : (w : Wire) → Ends (check_new username password w).0
  unfolding check_new
  check_new-Ends = >>=-Total (login username password) _ login-Total λ _.
      >>=-Total (command (codes "STAT")) _ (command-Total _) λ s.
        >>=-Total (retrieve (stat_count s) 1) _ (retrieve-Total (stat_count s) 1) (λ m.
          >>=-Total (ignore (command (codes "QUIT"))) _ (ignore-Total (command (codes "QUIT")))
            (λ _. pure-Total m))

-- The commands that leave a mailbox as it is.
abbrev reads_only : Bytes → Bool
reads_only b =
    starts_with b (codes "USER ")
    || starts_with b (codes "PASS ")
    || starts_with b (codes "STAT")
    || starts_with b (codes "RETR ")
    || starts_with b (codes "QUIT")

-- One such command, and no second one behind it.
abbrev pub IsReading : Bytes → Type 0
IsReading b = (reads_only b ≡ true) × ((l : Bytes) × (b ≡ l ++ crlf) × (has lf l ≡ false))

accepted-Sends : (l : Bytes × Text) → Sends IsReading (accepted l)
accepted-Sends l =
    if-Sends IsReading (starts_with l.1 (codes "-ERR")) (fail rejected) (pure l.1)
      (fail-Sends IsReading Text rejected) (pure-Sends IsReading l.1)

command-Sends :
    (cmd : Text)
    → reads_only (cmd ++ crlf) ≡ true
    → has lf cmd ≡ false
    → Sends IsReading (command cmd)
unfolding command
command-Sends cmd r one =
    >>=-Sends IsReading (write_all (cmd ++ crlf)) (λ _. with_reader read_line >>= accepted)
      (write_all-Sends IsReading (cmd ++ crlf) (r, (cmd, refl, one)))
      (λ _.
        >>=-Sends IsReading (with_reader read_line) accepted
          (reader-Sends IsReading read_line (read_line-Sends IsReading)) accepted-Sends)

round-Sends : (acc : Bytes) → Sends IsReading (multiline_round acc)
unfolding multiline_round
round-Sends acc =
    >>=-Sends IsReading read_line (λ l. pure (ended_or acc l)) (read_line-Sends IsReading)
      (λ l. pure-Sends IsReading (ended_or acc l))

read_multiline-Sends : Sends IsReading read_multiline
unfolding read_multiline
read_multiline-Sends =
    reader-Sends IsReading (loop multiline_round [])
      (loop-Sends IsReading multiline_round [] round-Sends)

not_digit : is_digit lf ≡ false
unfolding is_digit
not_digit = refl

retr : (i : ℕ) → Sends IsReading (command (codes "RETR " ++ print i))
unfolding starts_with has
retr i =
    command-Sends (codes "RETR " ++ print i) refl
      (has-digits lf (print i) (print-digits i) not_digit)

retrieve-Sends : (left i : ℕ) → Sends IsReading (retrieve left i)
unfolding retrieve
retrieve-Sends zero i = let nothing : List Numbered = [] in pure-Sends IsReading nothing
retrieve-Sends (suc left) i =
    >>=-Sends IsReading (command (codes "RETR " ++ print i)) _ (retr i) λ _.
      >>=-Sends IsReading read_multiline _ read_multiline-Sends λ raw.
        >>=-Sends IsReading (retrieve left (i + 1)) _ (retrieve-Sends left (i + 1))
          (λ later. pure-Sends IsReading ((i, raw) ∷ later))

module _ (username password : Text) (plain_user : has lf username ≡ false)
    (plain_pass : has lf password ≡ false) where
  login-Sends : Sends IsReading (login username password)
  unfolding starts_with has
  login-Sends =
      >>=-Sends IsReading (with_reader read_line) _
        (reader-Sends IsReading read_line (read_line-Sends IsReading))
        λ _.
          >>=-Sends IsReading (command (codes "USER " ++ username)) _
            (command-Sends (codes "USER " ++ username) refl plain_user)
            λ _.
              >>=-Sends IsReading (command (codes "PASS " ++ password)) _
                (command-Sends (codes "PASS " ++ password) refl plain_pass)
                (λ _. pure-Sends IsReading tt)

  -- A fetch deletes nothing: all that it sends, to any server, is one of the commands that read, each
  -- on a line of its own, if the user's name and password have no line end.
  pub check_new-Sends : Sends IsReading (check_new username password)
  unfolding check_new starts_with has
  check_new-Sends = >>=-Sends IsReading (login username password) _ login-Sends λ _.
      >>=-Sends IsReading (command (codes "STAT")) _ (command-Sends (codes "STAT") refl refl) λ s.
        >>=-Sends IsReading (retrieve (stat_count s) 1) _ (retrieve-Sends (stat_count s) 1) λ m.
          >>=-Sends IsReading (ignore (command (codes "QUIT"))) _
            (ignore-Sends IsReading (command (codes "QUIT"))
              (command-Sends (codes "QUIT") refl refl))
            (λ _. pure-Sends IsReading m)
