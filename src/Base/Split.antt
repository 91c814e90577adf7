-- ===== src/Base/Split.antt =====
-- `str::split` on a character, and `join` of the pieces.
use axiom_carriers.Base.Tests.{◌==◌, if◌then◌else◌, Bool-cases}
use axiom_carriers.Base.Text.{Text, has, is_whitespace}
use axiom_carriers.Base.Lists.{All}
use Prim.Native.Nat.{ℕ}
use mathlib.Core.Path.{◌≡◌, refl}
use mathlib.Core.Logic.{inl, inr}
use mathlib.Core.Bool.{false}
use mathlib.Core.List.{List, [], ◌∷◌, ◌++◌}
use native.Mathlib.Omega.{arith}

abbrev push_piece : ℕ → List Text → List Text
push_piece x [] = (x ∷ []) ∷ []
push_piece x (p ∷ ps) = (x ∷ p) ∷ ps

unfoldable pub split : ℕ → Text → List Text
split c [] = [] ∷ []
split c (x ∷ xs) = let rest = split c xs in if x == c then [] ∷ rest else push_piece x rest

abbrev pub joined : ℕ → List Text → Text
joined c [] = []
joined c (p ∷ ps) = c ∷ (p ++ joined c ps)

-- `join` on pieces with the one-character separator `c`
abbrev pub join_pieces : ℕ → List Text → Text
join_pieces c [] = []
join_pieces c (p ∷ ps) = p ++ joined c ps

pub split-cases : (c : ℕ) (s : Text) → (p : Text) × (ps : List Text) × (split c s ≡ p ∷ ps)
unfolding split
split-cases c [] = ([], [], refl)
split-cases c (x ∷ s) = elim (Bool-cases (x == c)) [
  | inl e ↦ ([], split c s, ground (arith, e))
  | inr n ↦ let (p, ps, h) = split-cases c s in (x ∷ p, ps, ground (arith, n, h))
]

pub split-none : (c : ℕ) (s : Text) → has c s ≡ false → split c s ≡ s ∷ []
unfolding split has
split-none c [] h = refl
split-none c (x ∷ s) h = ground (arith, split-none c s)

pub split-append : (c : ℕ) (a b : Text) → has c a ≡ false → split c (a ++ c ∷ b) ≡ a ∷ split c b
unfolding split has
split-append c [] b h = ground arith
split-append c (x ∷ a) b h = ground (arith, split-append c a b)

push_piece-All :
    (c x : ℕ) (p : Text) (ps : List Text)
    → (x == c) ≡ false
    → All (λ q. has c q ≡ false) (p ∷ ps)
    → All (λ q. has c q ≡ false) (push_piece x (p ∷ ps))
unfolding has
push_piece-All c x p ps n (h, hs) = (ground (arith, n, h), hs)

-- No piece has the separator.
pub split-All : (c : ℕ) (s : Text) → All (λ p. has c p ≡ false) (split c s)
unfolding split has
split-All c [] = (refl, tt)
split-All c (x ∷ s) = elim (Bool-cases (x == c)) [
  | inl e ↦ rw e (refl, split-All c s)
  | inr n ↦
      let (p, ps, h) = split-cases c s in
      rw (n, h) (push_piece-All c x p ps n (rw h at (split-All c s)))
]

push_piece-join :
    (c x : ℕ) (p : Text) (ps : List Text)
    → join_pieces c (push_piece x (p ∷ ps)) ≡ x ∷ join_pieces c (p ∷ ps)
push_piece-join c x p ps = refl

pub join_pieces-split : (c : ℕ) (s : Text) → join_pieces c (split c s) ≡ s
unfolding split
join_pieces-split c [] = refl
join_pieces-split c (x ∷ s) =
    let (p, ps, h) = split-cases c s in
    let ih = rw h at (join_pieces-split c s) in
    elim (Bool-cases (x == c)) [
      | inl e ↦ ground (arith, e, h, ih)
      | inr n ↦ ground (arith, n, h, ih)
    ]

abbrev add_word : Text × List Text → List Text
add_word ([], ws) = ws
add_word (x ∷ xs, ws) = (x ∷ xs) ∷ ws

-- The first word, empty where the text starts with a blank, and the later ones.
unfoldable pub words_from : Text → Text × List Text
words_from [] = ([], [])
words_from (c ∷ cs) =
    let r = words_from cs in if is_whitespace c then ([], add_word r) else (c ∷ r.0, r.1)

-- `split_whitespace`
unfoldable pub words : Text → List Text
unfolding words_from is_whitespace
words s = add_word (words_from s)
