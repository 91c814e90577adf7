-- ===== src/Antie/CareOf/Deposit.antt =====
-- antie/src/care_of.rs: the deposit at a pickup point.
use axiom_carriers.Base.{false, [], ◌∷◌, ◌≡◌, refl, arith, inl}
use axiom_carriers.Base.Text.{Text, codes, same, starts_with}
use axiom_carriers.Disk.{Bytes, Disk, Io, ◌>>◌, pure, call, write, rename, join}
use axiom_carriers.Disk.Laws.{tmp-new}
use axiom_carriers.Disk.Publish.{
  publication, Published, Post, call-Atomic, write-Staged, rename-Published,
}

abbrev pub pickup_tmp : Text → Text → Text → Text
pickup_tmp base domain filename = join (join (join base domain) (codes "tmp")) filename

abbrev pub pickup_new : Text → Text → Text → Text
pickup_new base domain filename = join (join (join base domain) (codes "new")) filename

-- Both directories are made, then the file is written and moved.
unfoldable pub deposit_atomic : Text → Text → Text → Bytes → Io Text
deposit_atomic base domain filename bytes = do
  call
  call
  write (pickup_tmp base domain filename) bytes
  rename (pickup_tmp base domain filename) (pickup_new base domain filename)
  pure (pickup_new base domain filename)

-- The pickup agent finds the artifact complete in `new/`, or not at all.
pub deposit_atomic-Published :
    (base domain filename other : Text) (bytes : Bytes) (d : Disk)
    (relative : starts_with filename (b'/' ∷ []) ≡ false)
    (tmp_other : same (pickup_tmp base domain filename) other ≡ false)
    (new_other : same (pickup_new base domain filename) other ≡ false)
    → d.seen ≡ []
    → let p =
        publication
          (pickup_tmp base domain filename)
          (pickup_new base domain filename)
          other
          bytes
          d
          (tmp-new (join base domain) filename relative)
          tmp_other
          new_other in
      Post p
        (λ path e. Published p e × (path ≡ pickup_new base domain filename))
        (deposit_atomic base domain filename bytes d)
unfolding deposit_atomic
deposit_atomic-Published base domain filename other bytes d relative tmp_other new_other fresh =
    let p =
      publication (pickup_tmp base domain filename) (pickup_new base domain filename) other bytes d
        (tmp-new (join base domain) filename relative) tmp_other new_other in
    let d1 : Disk = (call d).1 in
    let d2 : Disk = (call d1).1 in
    let d3 : Disk = (write p.tmp bytes d2).1 in
    ground (
      arith,
      call-Atomic p d ((inl refl, refl), rw fresh tt),
      call-Atomic p d1,
      write-Staged p d2,
      rename-Published p d3,
    )
