-- ===== src/Antie/Custody.antt =====
-- antie/src/custody.rs: where a reply goes when the client has no mailbox.
pub mod Atomic
use axiom_carriers.Base.{Bool, not, ◌&&◌, if◌then◌else◌, [], ◌∷◌}
use axiom_carriers.Base.Text.{Text, codes, has, contains}
use axiom_carriers.Antie.CareOf.{is_empty}
use axiom_carriers.Disk.{
  Bytes, Io, ◌>>=◌, ◌>>◌, pure, fail, ignore, invalid_input, call, create, write_all, rename, join,
}

unfoldable pub name_is_safe : Text → Bool
name_is_safe name =
    not (is_empty name)
    && not (has b'/' name)
    && not (has b'\\' name)
    && not (contains name (codes ".."))

abbrev pub tmp_path : Text → Text → Text
tmp_path dir name = join (join dir (codes "tmp")) name

-- `create_dir_all`, the write with its `sync_all`, the rename, and the directory's own sync, whose
-- failures are ignored.
unfoldable pub deposit : Text → Text → Bytes → Io Text
unfolding name_is_safe
deposit dir name bytes =
    if name_is_safe name
    then (do
      call
      create (tmp_path dir name)
      write_all (tmp_path dir name) bytes
      call
      rename (tmp_path dir name) (join dir name)
      ignore call
      ignore call
      pure (join dir name))
    else fail invalid_input
