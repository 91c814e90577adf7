-- ===== src/Disk/Holds.antt =====
-- What a call that succeeds leaves behind, whatever was observed before.
use axiom_carriers.Base.{some, ◌≡◌, arith, take}
use axiom_carriers.Base.Text.{same, Text, same_refl}
use axiom_carriers.Base.Result.{Result, ok, err}
use axiom_carriers.Base.{false, none, Option, [], refl}
use axiom_carriers.Disk.{
  create, remove_file, Bytes, lookup, insert, erase, Disk, IoError, call, write_all, rename,
  next_turn, write_turn, rename_turn, moved, advance, Turn, works, refused, torn,
}
use axiom_carriers.Disk.Laws.{lookup-insert, lookup-erase}

-- A property of the disk after a success.
abbrev pub AfterOk : {A : Type 0} → (Disk → Type 0) → Result IoError A × Disk → Type 0
AfterOk Q (ok _, d) = Q d
AfterOk Q (err _, _) = Unit

pub call-files : (d : Disk) → (call d).1.files ≡ d.files
unfolding call
call-files d = ground arith

write_turn-AfterOk :
    (t : Turn) (p : Text) (b : Bytes) (d : Disk)
    → AfterOk (λ e. lookup p e.files ≡ some b) (write_turn t p b d)
unfolding write_turn
write_turn-AfterOk (works n) p b d = ground (
  arith,
  lookup-insert p p b (insert p (take n b) d.files),
  lookup-insert p p b d.files,
  same_refl p,
)
write_turn-AfterOk refused p b d = tt
write_turn-AfterOk (torn n) p b d = tt

pub write_all-AfterOk :
    (p : Text) (b : Bytes) (d : Disk) → AfterOk (λ e. lookup p e.files ≡ some b) (write_all p b d)
unfolding write_all
write_all-AfterOk p b d = write_turn-AfterOk (next_turn d.turns) p b (advance d)

moved-AfterOk :
    (p q : Text) (b : Bytes) (d : Disk)
    → AfterOk (λ e. lookup q e.files ≡ some b) (moved p q (some b) d)
moved-AfterOk p q b d = ground (arith, lookup-insert q q b (erase p d.files), same_refl q)

rename_turn-AfterOk :
    (t : Turn) (p q : Text) (b : Bytes) (d : Disk)
    → lookup p d.files ≡ some b
    → AfterOk (λ e. lookup q e.files ≡ some b) (rename_turn t p q d)
unfolding rename_turn
rename_turn-AfterOk (works _) p q b d h = rw h (moved-AfterOk p q b d)
rename_turn-AfterOk refused p q b d h = tt
rename_turn-AfterOk (torn _) p q b d h = tt

pub rename-AfterOk :
    (p q : Text) (b : Bytes) (d : Disk)
    → lookup p d.files ≡ some b
    → AfterOk (λ e. lookup q e.files ≡ some b) (rename p q d)
unfolding rename
rename-AfterOk p q b d h = rename_turn-AfterOk (next_turn d.turns) p q b (advance d) h

-- A file that a step does not name is left alone.
module _ (other : Text) where
  abbrev pub Leaves : {A : Type 0} → Disk → Result IoError A × Disk → Type 0
  Leaves d r = lookup other r.1.files ≡ lookup other d.files

  pub create-Leaves : (p : Text) (d : Disk) → same p other ≡ false → Leaves d (create p d)
  unfolding create
  create-Leaves p d h = ground (arith, lookup-insert p other [] d.files)

  write_turn-Leaves :
      (t : Turn) (p : Text) (b : Bytes) (d : Disk)
      → same p other ≡ false
      → Leaves d (write_turn t p b d)
  unfolding write_turn
  write_turn-Leaves (works n) p b d h = ground (arith, lookup-insert p other b d.files)
  write_turn-Leaves refused p b d h = refl
  write_turn-Leaves (torn n) p b d h = ground (arith, lookup-insert p other (take n b) d.files)

  pub write_all-Leaves :
      (p : Text) (b : Bytes) (d : Disk) → same p other ≡ false → Leaves d (write_all p b d)
  unfolding write_all
  write_all-Leaves p b d h = write_turn-Leaves (next_turn d.turns) p b (advance d) h

  moved-Leaves :
      (p q : Text) (o : Option Bytes) (d : Disk)
      → same p other ≡ false
      → same q other ≡ false
      → Leaves d (moved p q o d)
  moved-Leaves p q none d hp hq = refl
  moved-Leaves p q (some b) d hp hq =
      ground (arith, lookup-insert q other b (erase p d.files), lookup-erase p other d.files)

  rename_turn-Leaves :
      (t : Turn) (p q : Text) (d : Disk)
      → same p other ≡ false
      → same q other ≡ false
      → Leaves d (rename_turn t p q d)
  unfolding rename_turn
  rename_turn-Leaves (works _) p q d hp hq = moved-Leaves p q (lookup p d.files) d hp hq
  rename_turn-Leaves refused p q d hp hq = refl
  rename_turn-Leaves (torn _) p q d hp hq = refl

  pub rename-Leaves :
      (p q : Text) (d : Disk)
      → same p other ≡ false
      → same q other ≡ false
      → Leaves d (rename p q d)
  unfolding rename
  rename-Leaves p q d hp hq = rename_turn-Leaves (next_turn d.turns) p q (advance d) hp hq

  pub remove_file-Leaves : (p : Text) (d : Disk) → same p other ≡ false → Leaves d (remove_file p d)
  unfolding remove_file
  remove_file-Leaves p d h = ground (arith, lookup-erase p other d.files)
