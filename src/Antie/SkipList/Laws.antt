-- ===== src/Antie/SkipList/Laws.antt =====
-- antie/src/skip_list.rs: which receivers are listed, and how a skipped cheque reaches the directory.
use axiom_carriers.Base.{
  Bool, false, ◌&&◌, ◌||◌, none, some, List, [], ◌∷◌, ◌++◌, ◌≡◌, refl, arith, any, Bool-cases, inl,
  inr, ◌∙◌, length-append,
}
use axiom_carriers.Base.Text.{Text, codes, same, same_iff, starts_with, trim}
use axiom_carriers.Disk.{Bytes, Disk, write, rename, join}
use axiom_carriers.Disk.Laws.{join-same, same-length}
use axiom_carriers.Disk.Publish.{
  publication, Published, Post, write-Staged, rename-Published, remove_file-Atomic,
}
use axiom_carriers.Antie.SkipList.{
  SkipList, lines, is_entry, member, add, collect, reload, contains, tmp_path, write_skipped,
}

member-add : (w e : Text) (set : List Text) → member w (add e set) ≡ (same e w || member w set)
unfolding add member
member-add w e set = elim (Bool-cases (member e set)) [
  | inl old ↦ rw old (ground (arith, same_iff e w))
  | inr new ↦ rw new refl
]

is_listed : Text → List Text → Bool
is_listed w ls = any (λ l. same (trim l) w) ls

member-collect :
    (w : Text) (set ls : List Text)
    → member w (collect set ls) ≡ (member w set || (is_entry w && is_listed w ls))
unfolding collect is_listed
member-collect w set [] = ground arith
member-collect w set (l ∷ ls) = elim (Bool-cases (is_entry (trim l))) [
  | inl e ↦
      rw e (
        member-collect w (add (trim l) set) ls
        ∙ rw member-add (ground (arith, same_iff (trim l) w)))
  | inr n ↦ rw n (member-collect w set ls ∙ ground (arith, same_iff (trim l) w))
]

-- After a reload a receiver is listed exactly when a line of the file, trimmed, is its id, and the
-- id is not blank and no comment. If the file cannot be read nobody is listed any more.
contains-reload :
    (s : SkipList) (content : Text) (w : Text)
    → (contains (reload s (some content)).0 w
        ≡ (is_entry w && any (λ l. same (trim l) w) (lines content)))
      × (contains (reload s none).0 w ≡ false)
unfolding reload contains member is_listed
contains-reload s content w = (member-collect w [] (lines content), refl)

pub tmp_path-apart :
    (s : SkipList) (name : Text)
    → starts_with name (b'/' ∷ []) ≡ false
    → same (tmp_path s name) (join s.skipped_dir name) ≡ false
unfolding starts_with
tmp_path-apart s name h =
    join-same s.skipped_dir (codes ".tmp." ++ name) name refl h
    ∙ same-length (codes ".tmp." ++ name) name (omega (arith, length-append {0}))

-- A skipped cheque appears under its name complete or not at all, whatever call fails. Where the
-- write succeeds it is there, and its temporary file is gone.
write_skipped-Published :
    (s : SkipList) (name other : Text) (content : Bytes) (d : Disk)
    (relative : starts_with name (b'/' ∷ []) ≡ false)
    (tmp_other : same (tmp_path s name) other ≡ false)
    (dest_other : same (join s.skipped_dir name) other ≡ false)
    → d.seen ≡ []
    → let p =
        publication
          (tmp_path s name)
          (join s.skipped_dir name)
          other
          content
          d
          (tmp_path-apart s name relative)
          tmp_other
          dest_other in
      Post p
        (λ path e. Published p e × (path ≡ join s.skipped_dir name))
        (write_skipped s name content d)
unfolding write_skipped
write_skipped-Published s name other content d relative tmp_other dest_other fresh =
    let p =
      publication (tmp_path s name) (join s.skipped_dir name) other content d
        (tmp_path-apart s name relative) tmp_other dest_other in
    let d1 : Disk = (write (tmp_path s name) content d).1 in
    let d2 : Disk = (rename (tmp_path s name) (join s.skipped_dir name) d1).1 in
    ground (
      arith,
      write-Staged p d ((inl refl, refl), rw fresh tt),
      rename-Published p d1,
      remove_file-Atomic p d2,
    )
