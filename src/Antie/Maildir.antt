-- ===== src/Antie/Maildir.antt =====
-- antie/src/maildir.rs: the inbox from the gateway's side.
pub mod Laws
use axiom_carriers.Base.{Option, none, some, [], ◌∷◌, ◌++◌}
use axiom_carriers.Base.Text.{Text, codes, rsplit_once}
use axiom_carriers.Base.Result.{Result, ok, err}
use axiom_carriers.Disk.{
  Bytes, Io, ◌>>=◌, ◌>>◌, pure, fail, call, write, create, write_all, rename, join, invalid_input,
}

pub record Maildir : Type 0 where
  pub base : Text

abbrev pub new_dir : Maildir → Text
new_dir m = join m.base (codes "new")

abbrev pub cur_dir : Maildir → Text
cur_dir m = join m.base (codes "cur")

abbrev pub tmp_dir : Maildir → Text
tmp_dir m = join m.base (codes "tmp")

-- The name of the file is the time, the process, `localhost` and a fresh UUID.
unfoldable pub write_message : Maildir → Text → Bytes → Io Text
write_message m filename content = do
  write (join (tmp_dir m) filename) content
  rename (join (tmp_dir m) filename) (join (new_dir m) filename)
  pure (join (new_dir m) filename)

-- `file_name` of a path in `new/`.
abbrev file_name : Text → Option Text
file_name path = elim (rsplit_once b'/' path) [ some (_, name) ↦ some name | none ↦ some path ]

abbrev marked : Maildir → Text → Option Text → Io Text
marked m path none = fail invalid_input
marked m path (some name) = do
  rename path (join (cur_dir m) (name ++ codes ":2,S"))
  pure (join (cur_dir m) (name ++ codes ":2,S"))

unfoldable pub mark_processed : Maildir → Text → Io Text
mark_processed m path = marked m path (file_name path)
