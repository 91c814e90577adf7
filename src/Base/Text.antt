-- ===== src/Base/Text.antt =====
-- Text as the list of its code points, with the operations of Rust's `str` that the code uses.
use axiom_carriers.Base.Tests.{ltb, leb, ◌==◌, if◌then◌else◌, Bool-cases}
use Prim.Native.Nat.{ℕ, ◌+◌}
use Prim.Native.Char.{code}
use Prim.Native.String.{String}
use mathlib.Core.Path.{◌≡◌, refl}
use mathlib.Core.Logic.{◌↔◌, inl, inr}
use mathlib.Core.Bool.{Bool, true, false, ◌&&◌, ◌||◌}
use mathlib.Core.Option.{Option, none, some}
use mathlib.Core.List.{List, [], ◌∷◌, ◌++◌, map}
use native.Mathlib.Omega.{arith}

abbrev pub Text : Type 0
Text = List ℕ

abbrev pub codes : String → Text
codes String.[] = []
codes (String.◌∷◌ c s) = code c ∷ codes s

-- `==` on `str`
unfoldable pub same : Text → Text → Bool
same [] [] = true
same (x ∷ xs) (y ∷ ys) = x == y && same xs ys
same _ _ = false

pub same_iff : (s t : Text) → (same s t ≡ true) ↔ (s ≡ t)
unfolding same
same_iff (x ∷ s) (y ∷ t) = ground (arith, same_iff s t)
same_iff _ _ = ground arith

pub same_refl : (s : Text) → same s s ≡ true
same_refl s = (same_iff s s).1 refl

-- `contains` of a character
unfoldable pub has : ℕ → Text → Bool
has c [] = false
has c (x ∷ xs) = x == c || has c xs

pub has-append : (c : ℕ) (s t : Text) → has c (s ++ t) ≡ (has c s || has c t)
unfolding has
has-append c [] t = refl
has-append c (x ∷ s) t = ground (arith, has-append c s t)

unfoldable pub starts_with : Text → Text → Bool
starts_with s [] = true
starts_with [] (p ∷ ps) = false
starts_with (x ∷ xs) (p ∷ ps) = x == p && starts_with xs ps

-- `strip_prefix`
unfoldable pub strip_prefix : Text → Text → Option Text
strip_prefix s [] = some s
strip_prefix [] (p ∷ ps) = none
strip_prefix (x ∷ xs) (p ∷ ps) = if x == p then strip_prefix xs ps else none

pub strip_prefix-append : (p s : Text) → strip_prefix (p ++ s) p ≡ some s
unfolding strip_prefix
strip_prefix-append [] s = refl
strip_prefix-append (x ∷ p) s = ground (arith, strip_prefix-append p s)

pub strip_prefix-eq-some : (s p r : Text) → strip_prefix s p ≡ some r → s ≡ p ++ r
unfolding strip_prefix
strip_prefix-eq-some s [] r e = ground arith
strip_prefix-eq-some [] (p ∷ ps) r e = ground arith
strip_prefix-eq-some (x ∷ xs) (p ∷ ps) r e = ground (arith, strip_prefix-eq-some xs ps r)

-- `contains` of a text
unfoldable pub contains : Text → Text → Bool
unfolding starts_with
contains [] p = starts_with [] p
contains (x ∷ xs) p = starts_with (x ∷ xs) p || contains xs p

abbrev push_front : ℕ → Option (Text × Text) → Option (Text × Text)
push_front x none = none
push_front x (some (a, b)) = some (x ∷ a, b)

-- `find(c)` with the slices on both sides of the place it finds
unfoldable pub split_once : ℕ → Text → Option (Text × Text)
split_once c [] = none
split_once c (x ∷ xs) = if x == c then some ([], xs) else push_front x (split_once c xs)

abbrev last_of : Bool → ℕ → Text → Option (Text × Text) → Option (Text × Text)
last_of here x xs (some (a, b)) = some (x ∷ a, b)
last_of here x xs none = if here then some ([], xs) else none

-- `rfind(c)` with the slices on both sides
unfoldable pub rsplit_once : ℕ → Text → Option (Text × Text)
rsplit_once c [] = none
rsplit_once c (x ∷ xs) = last_of (x == c) x xs (rsplit_once c xs)

pub split_once-append :
    (c : ℕ) (a b : Text) → has c a ≡ false → split_once c (a ++ c ∷ b) ≡ some (a, b)
unfolding split_once has
split_once-append c [] b h = ground arith
split_once-append c (x ∷ a) b h = ground (arith, split_once-append c a b)

pub split_once-none : (c : ℕ) (s : Text) → has c s ≡ false → split_once c s ≡ none
unfolding split_once has
split_once-none c [] h = refl
split_once-none c (x ∷ s) h = ground (arith, split_once-none c s)

-- What the first split says of the text.
abbrev pub SplitsFirst : ℕ → Text → Option (Text × Text) → Type 0
SplitsFirst c s none = has c s ≡ false
SplitsFirst c s (some (a, b)) = (s ≡ a ++ c ∷ b) × (has c a ≡ false)

push_front-SplitsFirst :
    (c x : ℕ) (s : Text) (o : Option (Text × Text))
    → (x == c) ≡ false
    → SplitsFirst c s o
    → SplitsFirst c (x ∷ s) (push_front x o)
unfolding has
push_front-SplitsFirst c x s none n h = ground arith
push_front-SplitsFirst c x s (some (a, b)) n h = ground arith

pub split_once-SplitsFirst : (c : ℕ) (s : Text) → SplitsFirst c s (split_once c s)
unfolding split_once has
split_once-SplitsFirst c [] = refl
split_once-SplitsFirst c (x ∷ s) = elim (Bool-cases (x == c)) [
  | inl e ↦ rw e (ground arith)
  | inr n ↦ rw n (push_front-SplitsFirst c x s (split_once c s) n (split_once-SplitsFirst c s))
]

pub split_once-eq-some :
    (c : ℕ) (s a b : Text) → split_once c s ≡ some (a, b) → (s ≡ a ++ c ∷ b) × (has c a ≡ false)
split_once-eq-some c s a b e = rw e at (split_once-SplitsFirst c s)

pub split_once-eq-none : (c : ℕ) (s : Text) → split_once c s ≡ none → has c s ≡ false
split_once-eq-none c s e = rw e at (split_once-SplitsFirst c s)

pub rsplit_once-none : (c : ℕ) (s : Text) → has c s ≡ false → rsplit_once c s ≡ none
unfolding rsplit_once has
rsplit_once-none c [] h = refl
rsplit_once-none c (x ∷ s) h = ground (arith, rsplit_once-none c s)

pub rsplit_once-append :
    (c : ℕ) (a b : Text) → has c b ≡ false → rsplit_once c (a ++ c ∷ b) ≡ some (a, b)
unfolding rsplit_once has
rsplit_once-append c [] b h = ground (arith, rsplit_once-none c b)
rsplit_once-append c (x ∷ a) b h = ground (arith, rsplit_once-append c a b)

-- What the last split says of the text.
abbrev pub SplitsLast : ℕ → Text → Option (Text × Text) → Type 0
SplitsLast c s none = has c s ≡ false
SplitsLast c s (some (a, b)) = (s ≡ a ++ c ∷ b) × (has c b ≡ false)

last_of-SplitsLast :
    (c x : ℕ) (s : Text) (o : Option (Text × Text))
    → SplitsLast c s o
    → SplitsLast c (x ∷ s) (last_of (x == c) x s o)
unfolding has
last_of-SplitsLast c x s none h = elim (Bool-cases (x == c)) [
  | inl e ↦ rw e (ground arith)
  | inr n ↦ rw n (ground arith)
]
last_of-SplitsLast c x s (some (a, b)) h = ground arith

pub rsplit_once-SplitsLast : (c : ℕ) (s : Text) → SplitsLast c s (rsplit_once c s)
unfolding rsplit_once has
rsplit_once-SplitsLast c [] = refl
rsplit_once-SplitsLast c (x ∷ s) =
    last_of-SplitsLast c x s (rsplit_once c s) (rsplit_once-SplitsLast c s)

pub rsplit_once-eq-some :
    (c : ℕ) (s a b : Text) → rsplit_once c s ≡ some (a, b) → (s ≡ a ++ c ∷ b) × (has c b ≡ false)
rsplit_once-eq-some c s a b e = rw e at (rsplit_once-SplitsLast c s)

pub rsplit_once-eq-none : (c : ℕ) (s : Text) → rsplit_once c s ≡ none → has c s ≡ false
rsplit_once-eq-none c s e = rw e at (rsplit_once-SplitsLast c s)

-- The first piece of `split(c)`: what stands before the first `c`, or all of the text.
unfoldable pub before : ℕ → Text → Text
before c [] = []
before c (x ∷ xs) = if x == c then [] else x ∷ before c xs

pub before-none : (c : ℕ) (s : Text) → has c s ≡ false → before c s ≡ s
unfolding before has
before-none c [] h = refl
before-none c (x ∷ s) h = ground (arith, before-none c s)

pub before-append : (c : ℕ) (a b : Text) → has c a ≡ false → before c (a ++ c ∷ b) ≡ a
unfolding before has
before-append c [] b h = ground arith
before-append c (x ∷ a) b h = ground (arith, before-append c a b)

pub has-before : (c : ℕ) (s : Text) → has c (before c s) ≡ false
unfolding before has
has-before c [] = refl
has-before c (x ∷ s) = ground (arith, has-before c s)

-- `to_ascii_lowercase`
unfoldable pub lower_char : ℕ → ℕ
lower_char c = if leb b'A' c && leb c b'Z' then c + 32 else c

unfoldable pub lower : Text → Text
unfolding lower_char
lower = map lower_char

-- `eq_ignore_ascii_case`
unfoldable pub same_ignore_case : Text → Text → Bool
unfolding lower same
same_ignore_case s t = same (lower s) (lower t)

lower_char_idem : (c : ℕ) → lower_char (lower_char c) ≡ lower_char c
unfolding lower_char
lower_char_idem c = ground arith

pub lower_idem : (s : Text) → lower (lower s) ≡ lower s
unfolding lower
lower_idem [] = refl
lower_idem (c ∷ s) = cc (lower_char_idem c, lower_idem s)

pub has-lower : (c : ℕ) (s : Text) → ltb c b'A' ≡ true → has c (lower s) ≡ has c s
unfolding lower has
has-lower c [] h = refl
has-lower c (x ∷ s) h = ground (arith, has-lower c s)

-- `char::is_whitespace`
unfoldable pub is_whitespace : ℕ → Bool
is_whitespace c =
    (leb 9 c && leb c 13)
    || c == 32
    || c == 0x85
    || c == 0xA0
    || c == 0x1680
    || (leb 0x2000 c && leb c 0x200A)
    || c == 0x2028
    || c == 0x2029
    || c == 0x202F
    || c == 0x205F
    || c == 0x3000

unfoldable pub trim_start : Text → Text
unfolding is_whitespace
trim_start [] = []
trim_start (x ∷ xs) = if is_whitespace x then trim_start xs else x ∷ xs

abbrev trimmed_cons : Bool → ℕ → Text → Text
trimmed_cons true x [] = []
trimmed_cons blank x xs = x ∷ xs

unfoldable pub trim_end : Text → Text
unfolding is_whitespace
trim_end [] = []
trim_end (x ∷ xs) = trimmed_cons (is_whitespace x) x (trim_end xs)

unfoldable pub trim : Text → Text
unfolding trim_start trim_end
trim s = trim_end (trim_start s)
