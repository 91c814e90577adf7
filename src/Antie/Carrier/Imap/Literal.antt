-- ===== src/Antie/Carrier/Imap/Literal.antt =====
-- antie/src/carrier.rs, `fetch_message`: the bytes of a message arrive as they are, and only those.
use axiom_carriers.Base.{
  ℕ, true, false, none, some, [], ◌∷◌, ◌++◌, ◌≡◌, refl, ap, ◌∙◌, length, if◌then◌else◌,
}
use axiom_carriers.Base.Text.{Text, codes, has, starts_with, trim}
use axiom_carriers.Base.Result.{Result, ok}
use axiom_carriers.Disk.{Bytes}
use axiom_carriers.Tot.Utf8.{is_ascii}
use axiom_carriers.Antie.Carrier.Wire.{
  lf, Wire, Net, Fail, pure, read_line, read_exact, write_all, with_reader,
}
use axiom_carriers.Antie.Carrier.Wire.Utf8.{decode-ascii}
use axiom_carriers.Antie.Carrier.Wire.Laws.{
  stream, pending, bind-ok, read_line-pending, write_works,
}
use axiom_carriers.Antie.Carrier.Wire.Loop.{Next, again, done, loop}
use axiom_carriers.Antie.Carrier.Wire.Unroll.{loop-again, loop-done}
use axiom_carriers.Antie.Carrier.Imap.Session.{fetch-Progress}
use axiom_carriers.Antie.Carrier.Wire.Spread.{read_exact-pending}
use axiom_carriers.Antie.Carrier.Imap.{crlf, literal, literal_size, fetch_round, fetch_message}

-- A line of the server, as the code reads it.
pub record IsLine (l : Bytes) : Type 0 where
  pub one : has lf l ≡ false
  pub ascii : is_ascii (l ++ lf ∷ []) ≡ true

abbrev read : Bytes → Text
read l = trim (l ++ lf ∷ [])

module _ (tag : Text) (acc l rest : Bytes) (w : Wire) (is_line : IsLine l)
    (e : pending w ≡ l ++ lf ∷ rest) where
  abbrev judged : Bytes × Text → Net (Next Bytes Bytes)
  judged a =
      if starts_with (trim a.1) tag then pure (done acc) else literal acc (literal_size (trim a.1))

  after_line :
      (fetch_round tag acc w ≡ judged (l ++ lf ∷ [], l ++ lf ∷ []) (read_line w).1)
      × (pending (read_line w).1 ≡ rest)
  unfolding fetch_round
  after_line =
      let (r, left) =
        read_line-pending l rest (l ++ lf ∷ []) w is_line.one
          (decode-ascii (l ++ lf ∷ []) is_line.ascii) e in
      (bind-ok read_line judged w (l ++ lf ∷ [], l ++ lf ∷ []) r, left.0)

  round_ends :
      starts_with (read l) tag ≡ true → (fetch_round tag acc w ≡ (ok (done acc), (read_line w).1))
  round_ends h = after_line.0 ∙ rw h refl

  round_passes :
      starts_with (read l) tag ≡ false
      → literal_size (read l) ≡ none
      → fetch_round tag acc w ≡ (ok (again acc), (read_line w).1)
  round_passes h n = after_line.0 ∙ rw (h, n) refl

  round_takes :
      (b rest' : Bytes)
      → starts_with (read l) tag ≡ false
      → literal_size (read l) ≡ some (length b)
      → rest ≡ b ++ rest'
      → (w' : Wire) × (fetch_round tag acc w ≡ (ok (again (acc ++ b)), w')) × (pending w' ≡ rest')
  round_takes b rest' h n e' =
      let (got, left) = read_exact-pending b rest' (read_line w).1 (after_line.1 ∙ e') in
      (
        (read_exact (length b) (read_line w).1).1,
        after_line.0
            ∙ rw (h, n)
                (bind-ok (read_exact (length b)) (λ bytes. pure (again (acc ++ bytes)))
                  (read_line w).1 b got),
        left.0,
      )

-- The lines of a server that sends one literal: the line that announces it, the line behind it, and the
-- tagged one.
pub record Announces (tag : Text) (size : ℕ) (announced closing tagged : Bytes) : Type 0 where
  pub first : IsLine announced
  pub second : IsLine closing
  pub third : IsLine tagged
  pub untagged : starts_with (read announced) tag ≡ false
  pub sized : literal_size (read announced) ≡ some size
  pub behind : starts_with (read closing) tag ≡ false
  pub unsized : literal_size (read closing) ≡ none
  pub ends : starts_with (read tagged) tag ≡ true

module _ (tag : Text) (b announced closing tagged rest : Bytes)
    (lines : Announces tag (length b) announced closing tagged) where
  loop_takes :
      (w : Wire)
      → pending w ≡ announced ++ lf ∷ (b ++ (closing ++ lf ∷ (tagged ++ lf ∷ rest)))
      → (loop (fetch_round tag) [] w).0 ≡ ok b
  loop_takes w e =
      let behind_it = closing ++ lf ∷ (tagged ++ lf ∷ rest) in
      let (w', takes, left) =
        round_takes tag [] announced (b ++ behind_it) w lines.first e b behind_it lines.untagged
          lines.sized refl in
      let w'' = (read_line w').1 in
      ap (λ r. r.0)
        (loop-again (fetch_round tag) (fetch-Progress tag) [] b w w' takes
          ∙ loop-again (fetch_round tag) (fetch-Progress tag) b b w' w'' (
              round_passes tag b closing (tagged ++ lf ∷ rest) w' lines.second left lines.behind
                lines.unsized)
          ∙ loop-done (fetch_round tag) (fetch-Progress tag) b b w'' (read_line w'').1 (
              round_ends tag b tagged rest w'' lines.third
                (after_line tag b closing (tagged ++ lf ∷ rest) w' lines.second left).1 lines.ends))

  -- The bytes of a message arrive as the server sent them, whatever they are and however they are spread
  -- over the reads: a text in them that looks like an answer, or that is no UTF-8, ends nothing.
  pub fetch_message_exact :
      (uid : Text) (w : Wire)
      → w.writes ≡ []
      → stream w.incoming ≡ announced ++ lf ∷ (b ++ (closing ++ lf ∷ (tagged ++ lf ∷ rest)))
      → (fetch_message tag uid w).0 ≡ ok b
  unfolding fetch_message
  fetch_message_exact uid w works e =
      let cmd = tag ++ (codes " UID FETCH " ++ (uid ++ (codes " BODY.PEEK[]" ++ crlf))) in
      let wrote = write_works cmd w works in
      ap (λ r. r.0)
        (bind-ok (write_all cmd) (λ _. with_reader (loop (fetch_round tag) [])) w tt
            (ap (λ r. r.0) wrote)
          ∙ ap (λ (r : Result Fail (Unit {0}) × Wire). with_reader (loop (fetch_round tag) []) r.1)
              wrote)
      ∙ loop_takes (record w { buffer = []; sent = w.sent ++ (cmd ∷ []) }) e
