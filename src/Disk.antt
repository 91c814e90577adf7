-- ===== src/Disk.antt =====
-- The file system as the code uses it: files by path, and calls that may fail at any point. The
-- turns decide each call in order: it works, it is refused, or it stops after some bytes. Every
-- state that another process could observe is logged, so that a partial write shows.
pub mod Laws
pub mod Holds
pub mod Publish
use axiom_carriers.Base.{ℕ, if◌then◌else◌, Option, none, some, List, [], ◌∷◌, ◌++◌, take}
use axiom_carriers.Base.{◌==◌}
use axiom_carriers.Base.Text.{Text, same, starts_with}
use axiom_carriers.Base.Result.{Result, ok, err}

abbrev pub Bytes : Type 0
Bytes = List ℕ

abbrev pub Files : Type 0
Files = List (Text × Bytes)

unfoldable pub lookup : Text → Files → Option Bytes
lookup p [] = none
lookup p ((q, b) ∷ fs) = if same q p then some b else lookup p fs

unfoldable pub insert : Text → Bytes → Files → Files
insert p b [] = (p, b) ∷ []
insert p b ((q, c) ∷ fs) = if same q p then (p, b) ∷ fs else (q, c) ∷ insert p b fs

unfoldable pub erase : Text → Files → Files
erase p [] = []
erase p ((q, c) ∷ fs) = let rest = erase p fs in if same q p then rest else (q, c) ∷ rest

-- `works n` lets `n` bytes show before a write is complete.
pub data Turn : Type 0 where
  works : ℕ → Turn
  refused : Turn
  torn : ℕ → Turn

pub data IoError : Type 0 where
  invalid_input not_found failed : IoError

pub record Disk : Type 0 where
  pub files : Files
  pub turns : List Turn
  pub seen : List Files

abbrev pub Io : Type 0 → Type 0
Io A = Disk → Result IoError A × Disk

infixl 5 ◌>>=◌ ◌>>◌
abbrev pub ◌>>=◌ : {A B : Type 0} → Io A → (A → Io B) → Io B
◌>>=◌ m f d = let r = m d in elim r.0 [ ok a ↦ f a r.1 | err e ↦ (err e, r.1) ]

abbrev pub ◌>>◌ : {A B : Type 0} → Io A → Io B → Io B
m >> k = m >>= λ _. k

abbrev pub pure : {A : Type 0} → A → Io A
pure a d = (ok a, d)

abbrev pub fail : {A : Type 0} → IoError → Io A
fail e d = (err e, d)

-- `let _ = …;`
abbrev pub ignore : {A : Type 0} → Io A → Io (Unit {0})
ignore m d = (ok tt, (m d).1)

-- The next turn, and the disk with the turns that are left. With no turn left all goes well.
unfoldable pub next_turn : List Turn → Turn
next_turn [] = works 0
next_turn (t ∷ ts) = t

unfoldable pub later_turns : List Turn → List Turn
later_turns [] = []
later_turns (t ∷ ts) = ts

abbrev pub advance : Disk → Disk
advance d = record d { turns = later_turns d.turns }

abbrev pub show : Files → Disk → Disk
show fs d = record d { files = fs; seen = fs ∷ d.seen }

-- A call that leaves all contents alone: `create_dir_all`, `sync_all`, opening a directory.
unfoldable pub call : Io (Unit {0})
unfolding next_turn
call d = elim (next_turn d.turns) [ works _ ↦ (ok tt, advance d) | _ ↦ (err failed, advance d) ]

-- `File::create` makes the file empty.
unfoldable pub create : Text → Io (Unit {0})
unfolding next_turn
create p d = elim (next_turn d.turns) [
  | works _ ↦ (ok tt, show (insert p [] d.files) (advance d))
  | _ ↦ (err failed, advance d)
]

unfoldable pub write_turn : Turn → Text → Bytes → Io (Unit {0})
write_turn (works n) p b d =
    (ok tt, show (insert p b d.files) (show (insert p (take n b) d.files) d))
write_turn refused p b d = (err failed, d)
write_turn (torn n) p b d = (err failed, show (insert p (take n b) d.files) d)

unfoldable pub write_all : Text → Bytes → Io (Unit {0})
unfolding next_turn write_turn
write_all p b d = write_turn (next_turn d.turns) p b (advance d)

-- `fs::write`
abbrev pub write : Text → Bytes → Io (Unit {0})
write p b = do create p; write_all p b

-- `rename(2)` is one step for every observer.
abbrev pub moved : Text → Text → Option Bytes → Io (Unit {0})
moved p q none d = (err not_found, d)
moved p q (some b) d = (ok tt, show (insert q b (erase p d.files)) d)

unfoldable pub rename_turn : Turn → Text → Text → Io (Unit {0})
rename_turn (works _) p q d = moved p q (lookup p d.files) d
rename_turn _ p q d = (err failed, d)

unfoldable pub rename : Text → Text → Io (Unit {0})
unfolding next_turn rename_turn
rename p q d = rename_turn (next_turn d.turns) p q (advance d)

unfoldable pub remove_file : Text → Io (Unit {0})
unfolding next_turn
remove_file p d = elim (next_turn d.turns) [
  | works _ ↦ (ok tt, show (erase p d.files) (advance d))
  | _ ↦ (err failed, advance d)
]

-- The separator that `Path::join` adds: none behind an empty path or a final `/`.
unfoldable pub with_separator : Text → Text
with_separator [] = []
with_separator (x ∷ []) = if x == b'/' then x ∷ [] else x ∷ b'/' ∷ []
with_separator (x ∷ y ∷ rest) = x ∷ with_separator (y ∷ rest)

-- `Path::join`: an absolute second part replaces the first.
unfoldable pub join : Text → Text → Text
unfolding with_separator starts_with
join dir name = if starts_with name (b'/' ∷ []) then name else with_separator dir ++ name

-- `if let Err(e) = m { let _ = cleanup; return Err(e) }`
abbrev pub or_clean : {A B : Type 0} → Io A → Io B → Io A
or_clean m cleanup d =
    let r = m d in elim r.0 [ ok a ↦ (ok a, r.1) | err e ↦ (err e, (cleanup r.1).1) ]
