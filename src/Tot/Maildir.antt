-- ===== src/Tot/Maildir.antt =====
-- tot/src/maildir.rs: the one inbox that TOT writes.
pub mod Laws
use axiom_carriers.Base.{ℕ, ◌+◌, [], ◌∷◌, ◌++◌}
use axiom_carriers.Base.Text.{Text, codes}
use axiom_carriers.Base.Decimal.{print}
use axiom_carriers.Disk.{
  Bytes, Io, ◌>>=◌, ◌>>◌, pure, call, create, write_all, rename, remove_file, join, or_clean,
}

pub record Inbox : Type 0 where
  pub tmp : Text
  pub new : Text

abbrev pub inbox_at : Text → Inbox
inbox_at inbox_dir = record {
  tmp = join inbox_dir (codes "tmp");
  new = join inbox_dir (codes "new");
}

-- `open` makes the three directories.
unfoldable pub open_inbox : Text → Io Inbox
open_inbox inbox_dir = do call; call; call; pure (inbox_at inbox_dir)

-- The clock, the process and the counter `SEQ` as `unique_name` reads them.
pub record Moment : Type 0 where
  pub secs : ℕ
  pub nanos : ℕ
  pub seq : ℕ
  pub pid : ℕ

unfoldable pub unique_name : Moment → Text
unique_name m =
    print m.secs
    ++ (b'.'
        ∷ (print m.nanos
            ++ (codes ".M" ++ (print m.seq ++ (b'P' ∷ (print m.pid ++ codes ".tot"))))))

-- The final two calls open and sync `new/`.
unfoldable pub deliver_as : Inbox → Text → Bytes → Io (Unit {0})
deliver_as inbox name bytes = do
  create (join inbox.tmp name)
  write_all (join inbox.tmp name) bytes
  call
  or_clean (rename (join inbox.tmp name) (join inbox.new name)) (remove_file (join inbox.tmp name))
  call
  call

abbrev pub deliver : Inbox → Moment → Bytes → Io (Unit {0})
deliver inbox m bytes = deliver_as inbox (unique_name m) bytes
