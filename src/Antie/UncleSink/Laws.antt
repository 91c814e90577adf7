-- ===== src/Antie/UncleSink/Laws.antt =====
-- antie/src/uncle_sink.rs: the copy is seen whole or not at all.
use axiom_carriers.Base.{ℕ, false, some, [], ◌∷◌, ◌≡◌, refl, arith, inl, ◌∙◌, ◌≤◌, ◌/◌}
use axiom_carriers.Base.Text.{Text, same, starts_with}
use axiom_carriers.Disk.{Bytes, Disk, lookup, write, rename, join}
use axiom_carriers.Disk.Laws.{join-same}
use axiom_carriers.Disk.Publish.{
  publication, Atomic, write-Staged, rename-Published, remove_file-Atomic,
}
use axiom_carriers.Antie.UncleSink.{hex_digit, hex, filename, tmp_name, tee}

hex_digit_bounds : (n : ℕ) → b'0' ≤ hex_digit n
unfolding hex_digit
hex_digit_bounds n = ground arith

filename-relative : (txid : Bytes) → starts_with (filename txid) (b'/' ∷ []) ≡ false
unfolding starts_with hex
filename-relative [] = refl
filename-relative (b ∷ bs) = ground (arith, hex_digit_bounds (b / 16))

filename-apart : (txid : Bytes) (stamp : Text) → same (tmp_name stamp) (filename txid) ≡ false
unfolding same hex
filename-apart [] stamp = refl
filename-apart (b ∷ bs) stamp = ground (arith, hex_digit_bounds (b / 16))

pub tee-apart :
    (outbox : Text) (txid : Bytes) (stamp : Text)
    → same (join outbox (tmp_name stamp)) (join outbox (filename txid)) ≡ false
unfolding starts_with
tee-apart outbox txid stamp =
    join-same outbox (tmp_name stamp) (filename txid) refl (filename-relative txid)
    ∙ filename-apart txid stamp

-- UNCLE never observes a partial copy, and a copy that is reported is there; a failure is swallowed
-- and leaves every other file as it was.
tee-Published :
    (outbox : Text) (txid : Bytes) (stamp : Text) (other : Text) (bytes : Bytes) (d : Disk)
    (tmp_other : same (join outbox (tmp_name stamp)) other ≡ false)
    (dest_other : same (join outbox (filename txid)) other ≡ false)
    → d.seen ≡ []
    → let p =
        publication
          (join outbox (tmp_name stamp))
          (join outbox (filename txid))
          other
          bytes
          d
          (tee-apart outbox txid stamp)
          tmp_other
          dest_other in
      let r = tee outbox txid stamp bytes d in
      Atomic p r.1 × ((path : Text) → r.0 ≡ some path → lookup path r.1.files ≡ some bytes)
unfolding tee
tee-Published outbox txid stamp other bytes d tmp_other dest_other fresh =
    let p =
      publication (join outbox (tmp_name stamp)) (join outbox (filename txid)) other bytes d
        (tee-apart outbox txid stamp) tmp_other dest_other in
    let d1 : Disk = (write p.tmp bytes d).1 in
    let d2 : Disk = (rename p.tmp p.dest d1).1 in
    let facts = write-Staged p d ((inl refl, refl), rw fresh tt) in
    (
      ground (arith, facts, rename-Published p d1, remove_file-Atomic p d2),
      λ path e. ground (arith, facts, rename-Published p d1, remove_file-Atomic p d2),
    )
