-- ===== src/Antie/Maildir/Laws.antt =====
-- antie/src/maildir.rs: a staged message is whole.
use axiom_carriers.Base.{some, false, ◌≡◌, arith}
use axiom_carriers.Base.Text.{Text, same}
use axiom_carriers.Disk.{Bytes, Disk, lookup, create, write_all, join}
use axiom_carriers.Disk.Holds.{
  AfterOk, write_all-AfterOk, rename-AfterOk, Leaves, create-Leaves, write_all-Leaves,
  rename-Leaves,
}
use axiom_carriers.Antie.Maildir.{Maildir, new_dir, tmp_dir, write_message}

pub write_message-AfterOk :
    (m : Maildir) (filename : Text) (content : Bytes) (d : Disk)
    → AfterOk
        (λ e. lookup (join (new_dir m) filename) e.files ≡ some content)
        (write_message m filename content d)
unfolding write_message
write_message-AfterOk m filename content d =
    let tmp = join (tmp_dir m) filename in
    let d1 : Disk = (create tmp d).1 in
    let d2 : Disk = (write_all tmp content d1).1 in
    ground (
      arith,
      write_all-AfterOk tmp content d1,
      rename-AfterOk tmp (join (new_dir m) filename) content d2,
    )

pub write_message-Leaves :
    (m : Maildir) (filename other : Text) (content : Bytes) (d : Disk)
    → same (join (tmp_dir m) filename) other ≡ false
    → same (join (new_dir m) filename) other ≡ false
    → Leaves other d (write_message m filename content d)
unfolding write_message
write_message-Leaves m filename other content d ht hn =
    let tmp = join (tmp_dir m) filename in
    let d1 : Disk = (create tmp d).1 in
    let d2 : Disk = (write_all tmp content d1).1 in
    ground (
      arith,
      create-Leaves other tmp d,
      write_all-Leaves other tmp content d1,
      rename-Leaves other tmp (join (new_dir m) filename) d2,
    )
