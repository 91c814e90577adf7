-- ===== src/Tot/Maildir/Laws.antt =====
-- tot/src/maildir.rs: the name is the server's, and ANTIE sees a submission whole or not at all.
use axiom_carriers.Base.{
  ℕ, false, [], ◌∷◌, ◌++◌, ◌≡◌, ◌≢◌, refl, arith, inl, ◌∙◌, ◌<◌, ◌^◌, Option, some, sym, ap,
  append_assoc,
}
use axiom_carriers.Base.Maybe.{◌>>=◌}
use mathlib.Core.Option.{some-injective}
use axiom_carriers.Base.Text.{Text, codes, has, has-append, same, split_once, split_once-append}
use axiom_carriers.Base.Decimal.{print, print-digits, is_digit, has-digits, parse, parse-print}
use axiom_carriers.Disk.{Bytes, Disk, call, create, write_all, rename, join}
use axiom_carriers.Disk.Laws.{tmp-new, starts_with-has}
use axiom_carriers.Disk.Publish.{
  publication, Published, Post, create-Atomic, write_all-Staged, call-Staged, rename-Published,
  remove_file-Atomic, call_ignored-Published,
}
use axiom_carriers.Tot.Maildir.{Moment, unique_name, inbox_at, deliver_as, deliver}

print-plain : (c n : ℕ) → is_digit c ≡ false → has c (print n) ≡ false
print-plain c n h = has-digits c (print n) (print-digits n) h

-- The client has no part in the name, and the name holds no separator.
pub unique_name-plain : (m : Moment) → has b'/' (unique_name m) ≡ false
unfolding unique_name has is_digit
unique_name-plain m = simp has-append (
    ground (
      arith,
      print-plain b'/' m.secs refl,
      print-plain b'/' m.nanos refl,
      print-plain b'/' m.seq refl,
      print-plain b'/' m.pid refl,
    ))

-- The counter, read back from a name.
seq_of : Text → Option ℕ
seq_of name = do
  (_, rest) ← split_once b'M' name
  (seq, _) ← split_once b'P' rest
  parse (2 ^ 64) seq

time_part : Moment → Text
time_part m = print m.secs ++ (b'.' ∷ (print m.nanos ++ codes "."))

time_part-plain : (m : Moment) → has b'M' (time_part m) ≡ false
unfolding time_part has is_digit
time_part-plain m =
    simp has-append (ground (arith, print-plain b'M' m.secs refl, print-plain b'M' m.nanos refl))

unique_name-time_part :
    (m : Moment)
    → unique_name m ≡ time_part m ++ b'M' ∷ (print m.seq ++ b'P' ∷ (print m.pid ++ codes ".tot"))
unfolding unique_name time_part
unique_name-time_part m = simp append_assoc

seq_of-unique_name : (m : Moment) → m.seq < 2 ^ 64 → seq_of (unique_name m) ≡ some m.seq
unfolding seq_of is_digit
seq_of-unique_name m h =
    let tail = b'P' ∷ (print m.pid ++ codes ".tot") in
    let cut = split_once-append b'M' (time_part m) (print m.seq ++ tail) (time_part-plain m) in
    ap seq_of (unique_name-time_part m)
    ∙ rw cut (
        rw
          (split_once-append b'P' (print m.seq) (print m.pid ++ codes ".tot")
            (print-plain b'P' m.seq refl))
          (parse-print (2 ^ 64) m.seq h))

-- Two deliveries with different counters never share a file name.
pub unique_name-ne :
    (m n : Moment) → m.seq < 2 ^ 64 → n.seq < 2 ^ 64 → m.seq ≢ n.seq → unique_name m ≢ unique_name n
unique_name-ne m n hm hn ne e =
    ne (some-injective _ _ (sym (seq_of-unique_name m hm) ∙ ap seq_of e ∙ seq_of-unique_name n hn))

-- ANTIE finds a submission complete in `new/` or does not find it, whatever call fails, and every
-- other file stays as it was. A success means that the bytes are there verbatim.
pub deliver-Published :
    (dir other : Text) (m : Moment) (bytes : Bytes) (d : Disk)
    (tmp_other : same (join (inbox_at dir).tmp (unique_name m)) other ≡ false)
    (new_other : same (join (inbox_at dir).new (unique_name m)) other ≡ false)
    → d.seen ≡ []
    → let p =
        publication
          (join (inbox_at dir).tmp (unique_name m))
          (join (inbox_at dir).new (unique_name m))
          other
          bytes
          d
          (tmp-new dir (unique_name m) (starts_with-has _ (unique_name-plain m)))
          tmp_other
          new_other in
      Post p (λ _ e. Published p e) (deliver (inbox_at dir) m bytes d)
unfolding deliver_as
deliver-Published dir other m bytes d tmp_other new_other fresh =
    let p =
      publication (join (inbox_at dir).tmp (unique_name m))
        (join (inbox_at dir).new (unique_name m)) other bytes d
        (tmp-new dir (unique_name m) (starts_with-has _ (unique_name-plain m))) tmp_other
        new_other in
    let d1 : Disk = (create p.tmp d).1 in
    let d2 : Disk = (write_all p.tmp bytes d1).1 in
    let d3 : Disk = (call d2).1 in
    let d4 : Disk = (rename p.tmp p.dest d3).1 in
    ground (
      arith,
      create-Atomic p d ((inl refl, refl), rw fresh tt),
      write_all-Staged p d1,
      call-Staged p d2,
      rename-Published p d3,
      remove_file-Atomic p d4,
      call_ignored-Published p d4,
      call_ignored-Published p (call d4).1,
    )
