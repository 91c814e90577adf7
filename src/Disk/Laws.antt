-- ===== src/Disk/Laws.antt =====
-- Laws of the file map and of paths.
use axiom_carriers.Base.{ℕ, if◌then◌else◌, none, some, [], ◌∷◌, ◌++◌, ◌≡◌, refl, arith}
use axiom_carriers.Base.{
  false, ◌≢◌, length, length-append, ◌<◌, ◌≤◌, ◌+◌, ap, ◌==◌, Bool-cases, inl, inr, append_assoc,
}
use axiom_carriers.Base.Text.{Text, codes, same, same_iff, starts_with, has}
use axiom_carriers.Disk.{Bytes, Files, lookup, insert, erase, with_separator, join}

pub lookup-insert :
    (p q : Text) (b : Bytes) (fs : Files)
    → lookup q (insert p b fs) ≡ (if same p q then some b else lookup q fs)
unfolding lookup insert
lookup-insert p q b [] = refl
lookup-insert p q b ((r, c) ∷ fs) =
    ground (arith, same_iff p q, same_iff r p, same_iff r q, lookup-insert p q b fs)

pub lookup-erase :
    (p q : Text) (fs : Files) → lookup q (erase p fs) ≡ (if same p q then none else lookup q fs)
unfolding lookup erase
lookup-erase p q [] = ground arith
lookup-erase p q ((r, c) ∷ fs) =
    ground (arith, same_iff p q, same_iff r p, same_iff r q, lookup-erase p q fs)

pub same-length : (s t : Text) → length s ≢ length t → same s t ≡ false
same-length s t h = elim (Bool-cases (same s t)) [
  | inl e ↦ absurd (h (ap length ((same_iff s t).0 e)))
  | inr e ↦ e
]

pub starts_with-has : (s : Text) → has b'/' s ≡ false → starts_with s (b'/' ∷ []) ≡ false
unfolding has starts_with
starts_with-has [] h = refl
starts_with-has (x ∷ s) h = ground arith

with_separator-length :
    (s : Text) → (length s ≤ length (with_separator s)) × (length (with_separator s) ≤ length s + 1)
unfolding with_separator
with_separator-length [] = omega arith
with_separator-length (x ∷ []) = ground arith
with_separator-length (x ∷ y ∷ rest) = ground (arith, with_separator-length (y ∷ rest))

-- What `join` returns for a name that is not an absolute path.
pub join-relative :
    (dir name : Text)
    → starts_with name (b'/' ∷ []) ≡ false
    → join dir name ≡ with_separator dir ++ name
unfolding join
join-relative dir name h = rw h

same-append : (p s t : Text) → same (p ++ s) (p ++ t) ≡ same s t
unfolding same
same-append [] s t = refl
same-append (x ∷ p) s t = ground (arith, same-append p s t)

-- Two names in one directory are told apart by the names.
pub join-same :
    (dir a b : Text)
    → starts_with a (b'/' ∷ []) ≡ false
    → starts_with b (b'/' ∷ []) ≡ false
    → same (join dir a) (join dir b) ≡ same a b
join-same dir a b h k =
    rw (join-relative dir a h, join-relative dir b k) (same-append (with_separator dir) a b)

with_separator-append :
    (s : Text) (c : ℕ) → (c == b'/') ≡ false → with_separator (s ++ c ∷ []) ≡ s ++ c ∷ b'/' ∷ []
unfolding with_separator
with_separator-append [] c h = rw h
with_separator-append (x ∷ []) c h = rw h
with_separator-append (x ∷ y ∷ s) c h = ap (◌∷◌ x) (with_separator-append (y ∷ s) c h)

-- A name in the subdirectory `sub` followed by `c`.
pub join-join :
    (dir sub name : Text) (c : ℕ)
    → starts_with (sub ++ c ∷ []) (b'/' ∷ []) ≡ false
    → starts_with name (b'/' ∷ []) ≡ false
    → (c == b'/') ≡ false
    → join (join dir (sub ++ c ∷ [])) name ≡ with_separator dir ++ (sub ++ c ∷ b'/' ∷ name)
join-join dir sub name c h k n =
    rw (join-relative (join dir (sub ++ c ∷ [])) name k, join-relative dir (sub ++ c ∷ []) h)
      (rw (← append_assoc (with_separator dir) sub (c ∷ []))
        (rw (with_separator-append (with_separator dir ++ sub) c n) (simp append_assoc)))

-- A file in `tmp/` is no file in `new/`.
pub tmp-new :
    (dir name : Text)
    → starts_with name (b'/' ∷ []) ≡ false
    → same (join (join dir (codes "tmp")) name) (join (join dir (codes "new")) name) ≡ false
unfolding starts_with same
tmp-new dir name h =
    rw
      (
        join-join dir (codes "tm") name b'p' refl h refl,
        join-join dir (codes "ne") name b'w' refl h refl,
      )
      (same-append (with_separator dir) (codes "tmp/" ++ name) (codes "new/" ++ name))

-- A name in a subdirectory is never the same name in the directory itself.
pub join-apart :
    (dir sub name : Text)
    → starts_with name (b'/' ∷ []) ≡ false
    → starts_with sub (b'/' ∷ []) ≡ false
    → 1 < length sub
    → same (join (join dir sub) name) (join dir name) ≡ false
join-apart dir sub name h k long =
    rw (join-relative (join dir sub) name h, join-relative dir sub k, join-relative dir name h)
      (same-length _ _ (
        omega (
          arith,
          length-append {0},
          with_separator-length dir,
          with_separator-length (with_separator dir ++ sub),
        )))
