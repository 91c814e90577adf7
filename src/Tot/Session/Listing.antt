-- ===== src/Tot/Session/Listing.antt =====
-- tot/src/main.rs, `pump_replies`: which files count as replies, and in which order they go.
use axiom_carriers.Base.{true, false, List, [], ◌∷◌, ◌≡◌, refl, arith, All, Bool-cases, inl, inr}
use axiom_carriers.Base.Text.{Text}
use axiom_carriers.Disk.{Files}
use axiom_carriers.Tot.Session.{is_reply, replies_in, comes_first, put, sorted}

abbrev pub IsReply : Text → Text → Type 0
IsReply dir path = is_reply dir path ≡ true

replies_in-IsReply : (dir : Text) (fs : Files) → All (IsReply dir) (replies_in dir fs)
unfolding replies_in
replies_in-IsReply dir [] = tt
replies_in-IsReply dir ((path, b) ∷ fs) = elim (Bool-cases (is_reply dir path)) [
  | inl is ↦ rw is (is, replies_in-IsReply dir fs)
  | inr other ↦ rw other (replies_in-IsReply dir fs)
]

module _ (P : Text → Type 0) where
  put-All : (p : Text) (qs : List Text) → P p → All P qs → All P (put p qs)
  unfolding put
  put-All p [] h hs = (h, tt)
  put-All p (q ∷ qs) h (hq, hqs) = elim (Bool-cases (comes_first p q)) [
    | inl first ↦ rw first (h, (hq, hqs))
    | inr later ↦ rw later (hq, put-All p qs h hqs)
  ]

  sorted-All : (ps : List Text) → All P ps → All P (sorted ps)
  unfolding sorted
  sorted-All [] h = tt
  sorted-All (p ∷ ps) (h, hs) = put-All p (sorted ps) h (sorted-All ps hs)

-- All that a session looks at are replies in its own directory.
pub listed-IsReply : (dir : Text) (fs : Files) → All (IsReply dir) (sorted (replies_in dir fs))
listed-IsReply dir fs = sorted-All (IsReply dir) (replies_in dir fs) (replies_in-IsReply dir fs)

-- Each path comes no later than the next.
abbrev pub InOrder : List Text → Type 0
InOrder [] = Unit
InOrder (p ∷ []) = Unit
InOrder (p ∷ q ∷ qs) = (comes_first p q ≡ true) × InOrder (q ∷ qs)

comes_first-total : (p q : Text) → comes_first p q ≡ false → comes_first q p ≡ true
unfolding comes_first
comes_first-total [] q h = ground arith
comes_first-total (x ∷ p) [] h = refl
comes_first-total (x ∷ p) (y ∷ q) h = ground (arith, comes_first-total p q)

put-InOrder : (p : Text) (qs : List Text) → InOrder qs → InOrder (put p qs)
unfolding put
put-InOrder p [] h = tt
put-InOrder p (q ∷ []) h = elim (Bool-cases (comes_first p q)) [
  | inl first ↦ rw first (first, tt)
  | inr later ↦ rw later (comes_first-total p q later, tt)
]
put-InOrder p (q ∷ r ∷ qs) (qr, h) = elim (Bool-cases (comes_first p q)) [
  | inl first ↦ rw first (first, (qr, h))
  | inr later ↦ elim (Bool-cases (comes_first p r)) [
    | inl here ↦ rw (later, here) (comes_first-total p q later, (here, h))
    | inr on ↦ rw (later, on) (qr, rw on at (put-InOrder p (r ∷ qs) h))
  ]
]

-- Replies go in the order of their names.
pub sorted-InOrder : (ps : List Text) → InOrder (sorted ps)
unfolding sorted
sorted-InOrder [] = tt
sorted-InOrder (p ∷ ps) = put-InOrder p (sorted ps) (sorted-InOrder ps)
