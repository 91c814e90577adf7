-- ===== src/Disk/Publish.antt =====
-- Writing beside a file and renaming over it: what an observer may see at the final path, and what
-- is left elsewhere. The rules follow the calls in order.
use axiom_carriers.Base.{Option, none, some, [], ◌≡◌, arith}
use axiom_carriers.Base.{false, ◌⊎◌, All, take}
use axiom_carriers.Base.Text.{Text, same, same_iff, same_refl}
use axiom_carriers.Base.Result.{Result, ok, err}
use axiom_carriers.Disk.{
  Bytes, Files, lookup, insert, erase, Disk, IoError, call, create, write_all, write, rename,
  remove_file, next_turn, write_turn, rename_turn, moved, advance, Turn, works, refused, torn,
}
use axiom_carriers.Disk.Laws.{lookup-insert, lookup-erase}

-- One publication: its temporary path, its final path with the contents before and after, and a
-- third path that has nothing to do with it.
pub record Publication : Type 0 where
  pub tmp : Text
  pub dest : Text
  pub other : Text
  pub old : Option Bytes
  pub bytes : Bytes
  pub kept : Option Bytes
  pub apart : same tmp dest ≡ false
  pub tmp_other : same tmp other ≡ false
  pub dest_other : same dest other ≡ false

module _ (p : Publication) where
  open p use {tmp, dest, other, old, bytes, kept, apart, tmp_other, dest_other}

  -- The final path holds what it held or the complete new contents, and the third path is as it was.
  abbrev pub Intact : Files → Type 0
  Intact fs = ((lookup dest fs ≡ old) ⊎ (lookup dest fs ≡ some bytes)) × (lookup other fs ≡ kept)

  -- So it is now, and so it was in every state that another process could observe.
  abbrev pub Atomic : Disk → Type 0
  Atomic d = Intact d.files × All Intact d.seen

  abbrev pub Staged : Disk → Type 0
  Staged d = Atomic d × (lookup tmp d.files ≡ some bytes)

  abbrev pub Published : Disk → Type 0
  Published d = Atomic d × (lookup dest d.files ≡ some bytes) × (lookup tmp d.files ≡ none)

  -- After a success `Q`; after a failure the publication has still been atomic.
  abbrev pub Post : {A : Type 0} → (A → Disk → Type 0) → Result IoError A × Disk → Type 0
  Post Q (ok a, d) = Q a d
  Post Q (err _, d) = Atomic d

  insert-Intact : (b : Bytes) (fs : Files) → Intact fs → Intact (insert tmp b fs)
  insert-Intact b fs h =
      ground (arith, apart, tmp_other, lookup-insert tmp dest b fs, lookup-insert tmp other b fs)

  erase-Intact : (fs : Files) → Intact fs → Intact (erase tmp fs)
  erase-Intact fs h =
      ground (arith, apart, tmp_other, lookup-erase tmp dest fs, lookup-erase tmp other fs)

  pub call-Atomic : (d : Disk) → Atomic d → Post (λ _ e. Atomic e) (call d)
  unfolding call
  call-Atomic d h = ground arith

  pub call-Staged : (d : Disk) → Staged d → Post (λ _ e. Staged e) (call d)
  unfolding call
  call-Staged d h = ground arith

  pub create-Atomic : (d : Disk) → Atomic d → Post (λ _ e. Atomic e) (create tmp d)
  unfolding create
  create-Atomic d h = ground (arith, insert-Intact [] d.files h.0)

  write_turn-Staged :
      (t : Turn) (d : Disk) → Atomic d → Post (λ _ e. Staged e) (write_turn t tmp bytes d)
  unfolding write_turn
  write_turn-Staged (works n) d h = ground (
    arith,
    insert-Intact bytes d.files h.0,
    insert-Intact (take n bytes) d.files h.0,
    lookup-insert tmp tmp bytes d.files,
    same_refl tmp,
  )
  write_turn-Staged refused d h = h
  write_turn-Staged (torn n) d h = ground (arith, insert-Intact (take n bytes) d.files h.0)

  pub write_all-Staged : (d : Disk) → Atomic d → Post (λ _ e. Staged e) (write_all tmp bytes d)
  unfolding write_all
  write_all-Staged d h = write_turn-Staged (next_turn d.turns) (advance d) h

  moved-Published :
      (d : Disk) → Staged d → Post (λ _ e. Published e) (moved tmp dest (some bytes) d)
  moved-Published d h = ground (
    arith,
    lookup-insert dest dest bytes (erase tmp d.files),
    lookup-insert dest tmp bytes (erase tmp d.files),
    lookup-insert dest other bytes (erase tmp d.files),
    lookup-erase tmp tmp d.files,
    lookup-erase tmp other d.files,
    same_refl dest,
    same_refl tmp,
    same_iff tmp dest,
    same_iff dest tmp,
  )

  rename_turn-Published :
      (t : Turn) (d : Disk) → Staged d → Post (λ _ e. Published e) (rename_turn t tmp dest d)
  unfolding rename_turn
  rename_turn-Published (works _) d h = rw h.1 (moved-Published d h)
  rename_turn-Published refused d h = h.0
  rename_turn-Published (torn _) d h = h.0

  pub rename-Published : (d : Disk) → Staged d → Post (λ _ e. Published e) (rename tmp dest d)
  unfolding rename
  rename-Published d h = rename_turn-Published (next_turn d.turns) (advance d) h

  pub remove_file-Atomic : (d : Disk) → Atomic d → Atomic (remove_file tmp d).1
  unfolding remove_file
  remove_file-Atomic d h = ground (arith, erase-Intact d.files h.0)

  -- A call whose failure is ignored, behind the publication.
  pub call_ignored-Published : (d : Disk) → Published d → Published (call d).1
  unfolding call
  call_ignored-Published d h = ground arith

  -- `fs::write` of the temporary file.
  pub write-Staged : (d : Disk) → Atomic d → Post (λ _ e. Staged e) (write tmp bytes d)
  write-Staged d h = ground (arith, create-Atomic d h, write_all-Staged (create tmp d).1)

-- A publication that starts from a disk on which nothing has been observed yet.
abbrev pub publication :
    (tmp dest other : Text) (bytes : Bytes) (d : Disk)
    → same tmp dest ≡ false
    → same tmp other ≡ false
    → same dest other ≡ false
    → Publication
publication tmp dest other bytes d a b c = record {
  tmp = tmp;
  dest = dest;
  other = other;
  old = lookup dest d.files;
  bytes = bytes;
  kept = lookup other d.files;
  apart = a;
  tmp_other = b;
  dest_other = c;
}
