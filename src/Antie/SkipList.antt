-- ===== src/Antie/SkipList.antt =====
-- antie/src/skip_list.rs: receivers whose cheques a sibling carrier collects.
pub mod Laws
use axiom_carriers.Base.{
  ℕ, Bool, true, false, not, ◌||◌, if◌then◌else◌, Option, none, some, List, [], ◌∷◌, ◌++◌, ◌==◌,
  length, ◌+◌,
}
use axiom_carriers.Base.Text.{Text, codes, same, starts_with, trim}
use axiom_carriers.Antie.CareOf.{is_empty}
use axiom_carriers.Disk.{
  Bytes, Files, Io, ◌>>=◌, ◌>>◌, pure, write, create, write_all, rename, remove_file, join,
  or_clean, lookup,
}

pub record SkipList : Type 0 where
  pub skip_list_path : Text
  pub skipped_dir : Text
  pub entries : List Text

-- `str::lines`: a line ends at `\n`, which is dropped with a `\r` before it.
abbrev drop_cr : Text → Text
drop_cr [] = []
drop_cr (x ∷ []) = if x == b'\r' then [] else x ∷ []
drop_cr (x ∷ y ∷ rest) = x ∷ drop_cr (y ∷ rest)

-- The accumulator holds the line read so far; a last line without `\n` keeps its `\r`.
unfoldable pub lines_from : Text → Text → List Text
lines_from line [] = if is_empty line then [] else line ∷ []
lines_from line (c ∷ cs) =
    let next = lines_from (if c == b'\n' then [] else line ++ c ∷ []) cs in
    if c == b'\n' then drop_cr line ∷ next else next

abbrev pub lines : Text → List Text
lines = lines_from []

unfoldable pub member : Text → List Text → Bool
member e [] = false
member e (x ∷ xs) = same x e || member e xs

-- A set, kept as the list of its elements without repetition.
unfoldable pub add : Text → List Text → List Text
unfolding member
add e set = if member e set then set else e ∷ set

abbrev pub is_entry : Text → Bool
is_entry trimmed = not (is_empty trimmed || starts_with trimmed (codes "#"))

unfoldable pub collect : List Text → List Text → List Text
unfolding add
collect set [] = set
collect set (line ∷ rest) = collect (if is_entry (trim line) then add (trim line) set else set) rest

-- A file that cannot be read counts as empty.
unfoldable pub load_entries : Option Text → List Text
unfolding collect lines_from
load_entries none = []
load_entries (some content) = collect [] (lines content)

unfoldable pub reload : SkipList → Option Text → SkipList × ℕ
unfolding load_entries
reload s content =
    let new_entries = load_entries content in
    (record s { entries = new_entries }, length new_entries)

unfoldable pub contains : SkipList → Text → Bool
unfolding member
contains s receiver_wallet_id = member receiver_wallet_id s.entries

abbrev pub tmp_path : SkipList → Text → Text
tmp_path s filename_hint = join s.skipped_dir (codes ".tmp." ++ filename_hint)

unfoldable pub write_skipped : SkipList → Text → Bytes → Io Text
write_skipped s filename_hint content = do
  write (tmp_path s filename_hint) content
  or_clean (rename (tmp_path s filename_hint) (join s.skipped_dir filename_hint))
      (remove_file (tmp_path s filename_hint))
  pure (join s.skipped_dir filename_hint)

-- `None` of either path disables the list; `create_dir_all` is the only step that can fail.
unfoldable pub maybe_open :
    Option Text → Option Text → Bool → Option Text → Option (Option SkipList)
unfolding load_entries
maybe_open (some slp) (some sdp) created content =
    if created
    then some
        (some (record { skip_list_path = slp; skipped_dir = sdp; entries = load_entries content }))
    else none
maybe_open _ _ created content = some none

-- The names in the directory, without writes in flight.
unfoldable pub skipped_dir_count : List Text → ℕ
skipped_dir_count [] = 0
skipped_dir_count (n ∷ names) =
    let rest = skipped_dir_count names in if starts_with n (codes ".tmp.") then rest else rest + 1
