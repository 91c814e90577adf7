-- ===== src/Antie/UncleSink.antt =====
-- antie/src/uncle_sink.rs: the copy of a response for UNCLE.
pub mod Laws
use axiom_carriers.Base.{
  ℕ, ltb, if◌then◌else◌, Option, none, some, [], ◌∷◌, ◌++◌, ◌+◌, ◌-◌, ◌/◌, ◌%◌,
}
use axiom_carriers.Base.Text.{Text, codes}
use axiom_carriers.Base.Result.{Result, ok, err}
use axiom_carriers.Disk.{
  Bytes, Disk, Io, ◌>>=◌, ◌>>◌, pure, write, create, write_all, rename, remove_file, join, or_clean,
}

-- `hex::encode`
unfoldable pub hex_digit : ℕ → ℕ
hex_digit n = if ltb n 10 then b'0' + n else b'a' + n - 10

unfoldable pub hex : Bytes → Text
unfolding hex_digit
hex [] = []
hex (b ∷ bs) = hex_digit (b / 16) ∷ hex_digit (b % 16) ∷ hex bs

abbrev pub filename : Bytes → Text
filename txid = hex txid ++ codes ".cbor"

-- The stamp is the process id and the nanoseconds since the epoch.
abbrev pub tmp_name : Text → Text
tmp_name stamp = codes ".uncle_tee.tmp." ++ stamp

unfoldable pub tee_steps : Text → Bytes → Text → Bytes → Io Text
tee_steps outbox txid stamp bytes = do
  write (join outbox (tmp_name stamp)) bytes
  or_clean (rename (join outbox (tmp_name stamp)) (join outbox (filename txid)))
      (remove_file (join outbox (tmp_name stamp)))
  pure (join outbox (filename txid))

-- An error is logged and not passed on.
unfoldable pub tee : Text → Bytes → Text → Bytes → Disk → Option Text × Disk
unfolding tee_steps
tee outbox txid stamp bytes d =
    let r = tee_steps outbox txid stamp bytes d in
    elim r.0 [ ok path ↦ (some path, r.1) | err _ ↦ (none, r.1) ]
