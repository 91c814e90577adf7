-- ===== src/Tot/Stream.antt =====
-- tot/src/main.rs: `PrefixedStream`, a socket with the bytes of the demux pushed back in front.
use axiom_carriers.Base.{
  ℕ, ◌+◌, ltb, if◌then◌else◌, List, [], ◌∷◌, ◌++◌, ◌≡◌, refl, arith, length, take, drop, min,
  take-append-drop, append_assoc, ◌∙◌, sym, Bool-cases, inl, inr, ◌≤◌, zero, suc,
}
use axiom_carriers.Disk.{Bytes}

-- The inner socket is what it has yet to yield.
pub record PrefixedStream : Type 0 where
  pub prefix : Bytes
  pub pos : ℕ
  pub inner : Bytes

-- One `poll_read` into a buffer with room for `room` bytes; the socket has `ready` bytes at hand.
unfoldable pub poll_read : PrefixedStream → ℕ → ℕ → PrefixedStream × Bytes
poll_read s room ready =
    let remaining = drop s.pos s.prefix in
    let n = min (length remaining) room in
    let k = min room ready in
    if ltb s.pos (length s.prefix)
    then (record s { pos = s.pos + n }, take n remaining)
    else (record s { inner = drop k s.inner }, take k s.inner)

pub read_all : PrefixedStream → List (ℕ × ℕ) → PrefixedStream × Bytes
read_all s [] = (s, [])
read_all s ((room, ready) ∷ plan) =
    let (s', out) = poll_read s room ready in
    let (s'', rest) = read_all s' plan in (s'', out ++ rest)

-- What a reader has yet to see.
abbrev pub ahead : PrefixedStream → Bytes
ahead s = drop s.pos s.prefix ++ s.inner

drop-nil : (n : ℕ) → Path Bytes [] (drop n [])
drop-nil zero = refl
drop-nil (suc n) = refl

drop-all : (n : ℕ) (b : Bytes) → length b ≤ n → drop n b ≡ []
drop-all zero [] h = refl
drop-all zero (x ∷ b) h = ground arith
drop-all (suc n) [] h = refl
drop-all (suc n) (x ∷ b) h = drop-all n b (omega arith)

drop-drop : (n m : ℕ) (b : Bytes) → drop (m + n) b ≡ drop n (drop m b)
drop-drop n zero b = let e : 0 + n ≡ n = omega arith in rw e refl
drop-drop n (suc m) [] = sym (drop-nil (suc m + n)) ∙ drop-nil n
drop-drop n (suc m) (x ∷ b) =
    let e : suc m + n ≡ suc (m + n) = omega arith in rw e (drop-drop n m b)

poll_read-ahead :
    (s : PrefixedStream) (room ready : ℕ)
    → (poll_read s room ready).1 ++ ahead (poll_read s room ready).0 ≡ ahead s
unfolding poll_read
poll_read-ahead s room ready = elim (Bool-cases (ltb s.pos (length s.prefix))) [
  | inl more ↦
      let rest = drop s.pos s.prefix in
      let n = min (length rest) room in
      ground (
        arith,
        more,
        drop-drop n s.pos s.prefix,
        take-append-drop n rest,
        append_assoc (take n rest) (drop n rest) s.inner,
      )
  | inr spent ↦
      let k = min room ready in
      ground (arith, spent, drop-all s.pos s.prefix, take-append-drop k s.inner)
]

-- However the reads are cut, what has been read followed by what is ahead is the prefix and then the
-- socket: no byte is lost, repeated or moved.
read_all-ahead :
    (s : PrefixedStream) (plan : List (ℕ × ℕ))
    → (read_all s plan).1 ++ ahead (read_all s plan).0 ≡ ahead s
unfolding read_all
read_all-ahead s [] = refl
read_all-ahead s ((room, ready) ∷ plan) =
    let s' = (poll_read s room ready).0 in
    ground (
      arith,
      poll_read-ahead s room ready,
      read_all-ahead s' plan,
      append_assoc (poll_read s room ready).1 (read_all s' plan).1 (ahead (read_all s' plan).0),
    )
