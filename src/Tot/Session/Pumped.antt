-- ===== src/Tot/Session/Pumped.antt =====
-- tot/src/main.rs, `pump_replies`: which replies are on the socket after a look into the directory.
use axiom_carriers.Base.{
  Bool, true, false, Option, none, some, List, [], ◌∷◌, ◌++◌, ◌≡◌, refl, sym, ap, ◌∙◌, arith, inl,
  inr, append_assoc, append-nil,
}
use axiom_carriers.Base.Text.{Text}
use axiom_carriers.Base.Result.{Result, ok, err, Result-cases}
use axiom_carriers.Disk.{
  Bytes, Files, Disk, Io, IoError, lookup, next_turn, advance, Turn, remove_file, works, refused,
  torn,
}
use axiom_carriers.Disk.Laws.{lookup-erase}
use axiom_carriers.Tot.Session.{
  Session, Run, ◌>>=◌, ◌>>◌, Ending, unread_reply, unreadable, contents, read_turn, read_file, went,
  send, forget, on_disk, list_turn, listed, send_files, pump_replies, sorted, replies_in,
}

-- What a read may do: it gives what the file holds, or fails, and no file changes.
abbrev Read : Text → Disk → Result IoError Bytes × Disk → Type 0
Read f d (ok b, d') = (lookup f d.files ≡ some b) × (d'.files ≡ d.files)
Read f d (err e, d') = d'.files ≡ d.files

contents-Read :
    (f : Text) (d d' : Disk) (o : Option Bytes)
    → lookup f d.files ≡ o
    → d'.files ≡ d.files
    → Read f d (contents o d')
contents-Read f d d' none h e = e
contents-Read f d d' (some b) h e = (h, e)

read_turn-Read : (t : Turn) (f : Text) (d : Disk) → Read f d (read_turn t f d)
read_turn-Read (works _) f d = contents-Read f d (advance d) (lookup f d.files) refl refl
read_turn-Read refused f d = refl
read_turn-Read (torn _) f d = refl

read_file-Read : (f : Text) (d : Disk) → Read f d (read_file f d)
unfolding read_file
read_file-Read f d = read_turn-Read (next_turn d.turns) f d

-- What is left of a disk of which files may have gone.
abbrev pub Fewer : Files → Files → Type 0
Fewer after before = (p : Text) (b : Bytes) → lookup p after ≡ some b → lookup p before ≡ some b

remove_file-Fewer : (f : Text) (d : Disk) → Fewer (remove_file f d).1.files d.files
unfolding remove_file
remove_file-Fewer f d p b h = ground (arith, lookup-erase f p d.files)

-- The replies `ps` hold `bs`.
abbrev pub Hold : Files → List Text → List Bytes → Type 0
Hold fs [] [] = Unit
Hold fs [] (_ ∷ _) = ⊥
Hold fs (_ ∷ _) [] = ⊥
Hold fs (p ∷ ps) (b ∷ bs) = (lookup p fs ≡ some b) × Hold fs ps bs

Hold-Fewer :
    (after before : Files) (ps : List Text) (bs : List Bytes)
    → Fewer after before
    → Hold after ps bs
    → Hold before ps bs
Hold-Fewer a b [] [] f h = tt
Hold-Fewer a b [] (_ ∷ _) f h = h
Hold-Fewer a b (_ ∷ _) [] f h = h
Hold-Fewer a b (p ∷ ps) (c ∷ bs) f (h, hs) = (f p c h, Hold-Fewer a b ps bs f hs)

-- What has been sent of the paths: the replies at the first of them, in order, and all of them if the
-- run succeeds. No file has come or changed.
pub record Sent (paths : List Text) (s : Session) (r : Result Ending (Unit {0}) × Session)
    : Type 0 where
  pub front : List Text
  pub back : List Text
  pub bytes : List Bytes
  pub are : paths ≡ front ++ back
  pub sent : r.1.sent ≡ s.sent ++ bytes
  pub held : Hold s.disk.files front bytes
  pub whole : r.0 ≡ ok tt → back ≡ []
  pub fewer : Fewer r.1.disk.files s.disk.files

module _ {A B : Type 0} (m : Run A) (f : A → Run B) (s : Session) where
  pub bind-ok : (a : A) → (m s).0 ≡ ok a → (m >>= f) s ≡ f a (m s).1
  unfolding ◌>>=◌
  bind-ok a e = λ i. elim (e i) [ ok b ↦ f b (m s).1 | err x ↦ (err x, (m s).1) ]

  pub bind-err : (x : Ending) → (m s).0 ≡ err x → (m >>= f) s ≡ (err x, (m s).1)
  unfolding ◌>>=◌
  bind-err x e = λ i. elim (e i) [ ok b ↦ f b (m s).1 | err y ↦ (err y, (m s).1) ]

none_sent :
    (paths : List Text) (s s' : Session) (e : Ending)
    → s'.sent ≡ s.sent
    → Fewer s'.disk.files s.disk.files
    → Sent paths s (err e, s')
none_sent paths s s' e kept fewer = record {
  front = [];
  back = paths;
  bytes = [];
  are = refl;
  sent = kept ∙ sym (append-nil s.sent);
  held = tt;
  whole = λ h. absurd (ground (arith, h));
  fewer = fewer;
}

-- One reply more in front.
sent_first :
    (f : Text) (fs : List Text) (b : Bytes) (s s' : Session)
    (r : Result Ending (Unit {0}) × Session)
    → lookup f s.disk.files ≡ some b
    → s'.sent ≡ s.sent ++ (b ∷ [])
    → Fewer s'.disk.files s.disk.files
    → Sent fs s' r
    → Sent (f ∷ fs) s r
sent_first f fs b s s' r h went_out fewer t = record {
  front = f ∷ t.front;
  back = t.back;
  bytes = b ∷ t.bytes;
  are = ap (◌∷◌ f) t.are;
  sent = t.sent ∙ ap (λ x. x ++ t.bytes) went_out ∙ append_assoc s.sent (b ∷ []) t.bytes;
  held = (h, Hold-Fewer s'.disk.files s.disk.files t.front t.bytes fewer t.held);
  whole = t.whole;
  fewer = λ p c k. fewer p c (t.fewer p c k);
}

-- The rest of a round, behind the read.
abbrev round : Text → List Text → Bytes → Run (Unit {0})
round f fs bytes = do send bytes; forget f; send_files fs

-- What a send may do.
abbrev Went : Bytes → Session → Result Ending (Unit {0}) × Session → Type 0
Went b s (ok _, s') = (s'.sent ≡ s.sent ++ (b ∷ [])) × (s'.disk ≡ s.disk)
Went b s (err _, s') = (s'.sent ≡ s.sent) × (s'.disk ≡ s.disk)

went-Went : (ts : List Bool) (b : Bytes) (s : Session) → Went b s (went ts b s)
went-Went [] b s = (refl, refl)
went-Went (true ∷ ts) b s = (refl, refl)
went-Went (false ∷ ts) b s = (refl, refl)

Went-ok :
    (b : Bytes) (s : Session) (r : Result Ending (Unit {0}) × Session)
    → r.0 ≡ ok tt
    → Went b s r
    → (r.1.sent ≡ s.sent ++ (b ∷ [])) × (r.1.disk ≡ s.disk)
Went-ok b s (ok _, s') e w = w
Went-ok b s (err _, s') e w = absurd (ground (arith, e))

Went-err :
    (b : Bytes) (s : Session) (r : Result Ending (Unit {0}) × Session) (x : Ending)
    → r.0 ≡ err x
    → Went b s r
    → (r.1.sent ≡ s.sent) × (r.1.disk ≡ s.disk)
Went-err b s (ok _, s') x e w = absurd (ground (arith, e))
Went-err b s (err _, s') x e w = w

module _ (f : Text) (fs : List Text) (b : Bytes) (s : Session) where
  round-ok : (send b s).0 ≡ ok tt → round f fs b s ≡ send_files fs (forget f (send b s).1).1
  round-ok e =
      bind-ok (send b) (λ _. forget f >> send_files fs) s tt e
      ∙ bind-ok (forget f) (λ _. send_files fs) (send b s).1 tt refl

  round-err : (x : Ending) → (send b s).0 ≡ err x → round f fs b s ≡ (err x, (send b s).1)
  round-err x e = bind-err (send b) (λ _. forget f >> send_files fs) s x e

  round-Sent :
      ((s' : Session) → Sent fs s' (send_files fs s'))
      → lookup f s.disk.files ≡ some b
      → Sent (f ∷ fs) s (round f fs b s)
  round-Sent later h = elim (Result-cases (send b s).0) [
    | inl (_, e) ↦
        let (out, d) = Went-ok b s (send b s) e (went-Went s.sends b s) in
        let s' = (forget f (send b s).1).1 in
        let fewer : Fewer s'.disk.files s.disk.files = λ p c k.
          ap (λ (d : Disk). lookup p d.files) (sym d)
          ∙ remove_file-Fewer f (send b s).1.disk p c k in
        rw (round-ok e) (sent_first f fs b s s' (send_files fs s') h out fewer (later s'))
    | inr (x, e) ↦
        let (kept, d) = Went-err b s (send b s) x e (went-Went s.sends b s) in
        rw (round-err x e) (
          none_sent (f ∷ fs) s (send b s).1 x kept
            (λ p c k. ap (λ (d : Disk). lookup p d.files) (sym d) ∙ k))
  ]

module _ {A : Type 0} (x : Ending) (m : Io A) (s : Session) where
  on_disk-ok :
      (a : A) → (m s.disk).0 ≡ ok a → on_disk x m s ≡ (ok a, record s { disk = (m s.disk).1 })
  on_disk-ok a e = λ i. elim (e i) [
    | ok b ↦ (ok b, record s { disk = (m s.disk).1 })
    | err _ ↦ (err x, record s { disk = (m s.disk).1 })
  ]

  on_disk-err :
      (y : IoError)
      → (m s.disk).0 ≡ err y
      → on_disk x m s ≡ (err x, record s { disk = (m s.disk).1 })
  on_disk-err y e = λ i. elim (e i) [
    | ok b ↦ (ok b, record s { disk = (m s.disk).1 })
    | err _ ↦ (err x, record s { disk = (m s.disk).1 })
  ]

  -- A call on the disk, and what follows it.
  pub then-ok :
      {B : Type 0} (f : A → Run B) (a : A)
      → (m s.disk).0 ≡ ok a
      → (on_disk x m >>= f) s ≡ f a (record s { disk = (m s.disk).1 })
  then-ok f a e =
      bind-ok (on_disk x m) f s a (ap (λ r. r.0) (on_disk-ok a e))
      ∙ ap (λ (r : Result Ending A × Session). f a r.1) (on_disk-ok a e)

  pub then-err :
      {B : Type 0} (f : A → Run B) (y : IoError)
      → (m s.disk).0 ≡ err y
      → (on_disk x m >>= f) s ≡ (err x, record s { disk = (m s.disk).1 })
  then-err {B} f y e =
      let none_came : Session → Result Ending B × Session = λ s'. (err x, s') in
      bind-err (on_disk x m) f s x (ap (λ r. r.0) (on_disk-err y e))
      ∙ ap (λ (r : Result Ending A × Session). none_came r.1) (on_disk-err y e)

Read-ok :
    (f : Text) (d : Disk) (r : Result IoError Bytes × Disk) (b : Bytes)
    → r.0 ≡ ok b
    → Read f d r
    → (lookup f d.files ≡ some b) × (r.1.files ≡ d.files)
Read-ok f d (ok c, d') b e (h, k) = (ground (arith, e, h), k)
Read-ok f d (err x, d') b e h = absurd (ground (arith, e))

Read-files :
    (f : Text) (d : Disk) (r : Result IoError Bytes × Disk) → Read f d r → r.1.files ≡ d.files
Read-files f d (ok c, d') (h, k) = k
Read-files f d (err x, d') h = h

-- The same files.
same_files : (s : Session) (d : Disk) → d.files ≡ s.disk.files → Fewer d.files s.disk.files
same_files s d e p b k = ap (lookup p) (sym e) ∙ k

-- What was proved of the session behind the read holds of the session before it.
before_read :
    (paths : List Text) (s : Session) (d : Disk) (r : Result Ending (Unit {0}) × Session)
    → d.files ≡ s.disk.files
    → Sent paths (record s { disk = d }) r
    → Sent paths s r
before_read paths s d r e t = record {
  front = t.front;
  back = t.back;
  bytes = t.bytes;
  are = t.are;
  sent = t.sent;
  held = Hold-Fewer d.files s.disk.files t.front t.bytes (same_files s d e) t.held;
  whole = t.whole;
  fewer = λ p c k. same_files s d e p c (t.fewer p c k);
}

send_files-Sent : (paths : List Text) (s : Session) → Sent paths s (send_files paths s)
unfolding send_files
send_files-Sent [] s = record {
  front = [];
  back = [];
  bytes = [];
  are = refl;
  sent = sym (append-nil s.sent);
  held = tt;
  whole = λ _. refl;
  fewer = λ p b k. k;
}
send_files-Sent (f ∷ fs) s =
    let d = (read_file f s.disk).1 in
    let files = Read-files f s.disk (read_file f s.disk) (read_file-Read f s.disk) in
    elim (Result-cases (read_file f s.disk).0) [
      | inl (b, e) ↦
          let (h, _) = Read-ok f s.disk (read_file f s.disk) b e (read_file-Read f s.disk) in
          rw (then-ok unread_reply (read_file f) s (λ bytes. round f fs bytes) b e) (
            before_read (f ∷ fs) s d _ files (
              round-Sent f fs b (record s { disk = d }) (send_files-Sent fs)
                (ap (lookup f) files ∙ h)))
      | inr (y, e) ↦
          rw (then-err unread_reply (read_file f) s (λ bytes. round f fs bytes) y e)
            (none_sent (f ∷ fs) s _ unread_reply refl (same_files s d files))
    ]

list_turn-files : (t : Turn) (dir : Text) (d : Disk) → (list_turn t dir d).1.files ≡ d.files
list_turn-files (works _) dir d = refl
list_turn-files refused dir d = refl
list_turn-files (torn _) dir d = refl

list_turn-ok :
    (t : Turn) (dir : Text) (d : Disk) (ps : List Text)
    → (list_turn t dir d).0 ≡ ok ps
    → ps ≡ sorted (replies_in dir d.files)
list_turn-ok (works _) dir d ps e = ground (arith, e)
list_turn-ok refused dir d ps e = absurd (ground (arith, e))
list_turn-ok (torn _) dir d ps e = absurd (ground (arith, e))

pub pump_replies-Sent :
    (dir : Text) (s : Session) → Sent (sorted (replies_in dir s.disk.files)) s (pump_replies dir s)
unfolding pump_replies
pump_replies-Sent dir s =
    let d = (listed dir s.disk).1 in
    let files = list_turn-files (next_turn s.disk.turns) dir s.disk in
    elim (Result-cases (listed dir s.disk).0) [
      | inl (ps, e) ↦
          rw
            (
              then-ok unreadable (listed dir) s send_files ps e,
              list_turn-ok (next_turn s.disk.turns) dir s.disk ps e,
            )
            (before_read _ s d _ files
              (send_files-Sent (sorted (replies_in dir s.disk.files)) (record s { disk = d })))
      | inr (y, e) ↦
          rw (then-err unreadable (listed dir) s send_files y e)
            (none_sent _ s _ unreadable refl (same_files s d files))
    ]
