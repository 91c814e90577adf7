-- ===== src/Antie/Custody/Atomic.antt =====
-- antie/src/custody.rs: a deposit is seen whole or not at all, and stays in its directory.
use axiom_carriers.Base.{true, false, ◌++◌, [], ◌≡◌, ◌≢◌, refl, arith}
use axiom_carriers.Base.{inl}
use axiom_carriers.Base.Text.{Text, codes, has, same, starts_with}
use axiom_carriers.Base.Result.{err}
use axiom_carriers.Disk.{
  Bytes, Disk, Io, ◌>>◌, pure, ignore, invalid_input, call, create, write_all, rename, join,
  with_separator,
}
use axiom_carriers.Disk.Laws.{join-relative, join-apart, starts_with-has}
use axiom_carriers.Disk.Publish.{
  Publication, publication, Published, Atomic, Post, call-Atomic, call-Staged, create-Atomic,
  write_all-Staged, rename-Published, call_ignored-Published,
}
use axiom_carriers.Antie.Custody.{name_is_safe, tmp_path, deposit}

-- A safe name is one component: the reply lands directly in the session's directory.
pub name_is_safe-join :
    (dir name : Text)
    → name_is_safe name ≡ true
    → (join dir name ≡ with_separator dir ++ name) × (has b'/' name ≡ false) × (name ≢ [])
unfolding name_is_safe
name_is_safe-join dir name h =
    let plain : has b'/' name ≡ false = ground arith in
    (join-relative dir name (starts_with-has name plain), plain, λ e. ground arith)

pub tmp_path-apart :
    (dir name : Text) → name_is_safe name ≡ true → same (tmp_path dir name) (join dir name) ≡ false
unfolding name_is_safe starts_with
tmp_path-apart dir name h =
    join-apart dir (codes "tmp") name (starts_with-has name (ground arith)) refl (omega arith)

-- A name that could leave the directory is refused before anything is touched.
pub deposit_unsafe :
    (dir name : Text) (bytes : Bytes) (d : Disk)
    → name_is_safe name ≡ false
    → deposit dir name bytes d ≡ (err invalid_input, d)
unfolding deposit
deposit_unsafe dir name bytes d h = rw h

module _ (p : Publication) where
  open p use {tmp, dest, bytes}

  deposit_steps : Io Text
  deposit_steps = do
    call
    create tmp
    write_all tmp bytes
    call
    rename tmp dest
    ignore call
    ignore call
    pure dest

  deposit_steps-Published :
      (d : Disk) → Atomic p d → Post p (λ path e. Published p e × (path ≡ dest)) (deposit_steps d)
  unfolding deposit_steps
  deposit_steps-Published d h =
      let d1 : Disk = (call d).1 in
      let d2 : Disk = (create tmp d1).1 in
      let d3 : Disk = (write_all tmp bytes d2).1 in
      let d4 : Disk = (call d3).1 in
      let d5 : Disk = (rename tmp dest d4).1 in
      ground (
        arith,
        call-Atomic p d h,
        create-Atomic p d1,
        write_all-Staged p d2,
        call-Staged p d3,
        rename-Published p d4,
        call_ignored-Published p d5,
        call_ignored-Published p (call d5).1,
      )

-- Every observer sees the reply's file as it was or complete, whatever call fails; other files are
-- as they were; and where the deposit succeeds the file is there and no temporary one is left.
pub deposit-Published :
    (dir name other : Text) (bytes : Bytes) (d : Disk) (safe : name_is_safe name ≡ true)
    (tmp_other : same (tmp_path dir name) other ≡ false)
    (dest_other : same (join dir name) other ≡ false)
    → d.seen ≡ []
    → let p =
        publication
          (tmp_path dir name)
          (join dir name)
          other
          bytes
          d
          (tmp_path-apart dir name safe)
          tmp_other
          dest_other in
      Post p (λ path e. Published p e × (path ≡ join dir name)) (deposit dir name bytes d)
unfolding deposit
deposit-Published dir name other bytes d safe tmp_other dest_other fresh =
    let p =
      publication (tmp_path dir name) (join dir name) other bytes d (tmp_path-apart dir name safe)
        tmp_other dest_other in
    rw safe (unfold deposit_steps in deposit_steps-Published p d ((inl refl, refl), rw fresh tt))
