-- ===== src/Base/Decimal.antt =====
-- Decimal numbers as `format!` prints them and as `str::parse` of an unsigned type reads them.
use axiom_carriers.Base.Tests.{ltb, leb, ◌==◌, if◌then◌else◌, Bool-cases, ==_iff}
use axiom_carriers.Base.Text.{Text, has}
use axiom_carriers.Base.Lists.{all}
use Prim.Native.Nat.{ℕ, zero, suc, ◌+◌, ◌-◌, ◌*◌, ◌/◌, ◌%◌, ◌<◌}
use mathlib.Core.Path.{◌≡◌, refl, ◌∙◌}
use mathlib.Core.Logic.{◌≢◌, inl, inr}
use mathlib.Core.Bool.{Bool, true, false, ◌&&◌}
use mathlib.Core.Option.{Option, none, some}
use mathlib.Core.List.{[], ◌∷◌}
use native.Mathlib.Omega.{arith}

-- One digit fewer is left in each round, so `n + 1` rounds are enough.
print_onto : ℕ → ℕ → Text → Text
print_onto zero n rest = rest
print_onto (suc f) n rest =
    let front = print_onto f (n / 10) ((n % 10 + b'0') ∷ rest) in
    if ltb n 10 then (n + b'0') ∷ rest else front

unfoldable pub print : ℕ → Text
unfolding print_onto
print n = print_onto (n + 1) n []

unfoldable pub is_digit : ℕ → Bool
is_digit c = leb b'0' c && leb c b'9'

-- The checked multiplication and addition of each step fail together when the value is too large.
unfoldable pub parse_from : ℕ → ℕ → Text → Option ℕ
unfolding is_digit
parse_from bound acc [] = some acc
parse_from bound acc (c ∷ cs) =
    let v = acc * 10 + (c - b'0') in
    if is_digit c && ltb v bound then parse_from bound v cs else none

-- A sign `+` may stand in front; there has to be a digit.
unfoldable pub parse : ℕ → Text → Option ℕ
unfolding parse_from
parse bound [] = none
parse bound (c ∷ []) = parse_from bound 0 (c ∷ [])
parse bound (c ∷ d ∷ cs) =
    if c == b'+' then parse_from bound 0 (d ∷ cs) else parse_from bound 0 (c ∷ d ∷ cs)

parse_from-print_onto :
    (bound f n : ℕ) (rest : Text)
    → n < f
    → n < bound
    → parse_from bound 0 (print_onto f n rest) ≡ parse_from bound n rest
unfolding parse_from print_onto
parse_from-print_onto bound zero n rest h b = elim h [ ]
parse_from-print_onto bound (suc f) n rest h b = elim (Bool-cases (ltb n 10)) [
  | inl small ↦ rw small (ground arith)
  | inr large ↦ rw large (
      parse_from-print_onto bound f (n / 10) ((n % 10 + b'0') ∷ rest) (ground arith) (ground arith)
      ∙ ground arith)
]

-- A printed number starts with a digit, and is read without a sign.
print_onto-digits :
    (f n : ℕ) (rest : Text) → all is_digit rest ≡ true → all is_digit (print_onto f n rest) ≡ true
unfolding print_onto is_digit
print_onto-digits zero n rest h = h
print_onto-digits (suc f) n rest h = elim (Bool-cases (ltb n 10)) [
  | inl small ↦ rw small (ground arith)
  | inr large ↦ rw large (print_onto-digits f (n / 10) _ (ground arith))
]

pub print-digits : (n : ℕ) → all is_digit (print n) ≡ true
unfolding print
print-digits n = print_onto-digits (n + 1) n [] refl

parse_unsigned :
    (bound : ℕ) (s : Text) → all is_digit s ≡ true → s ≢ [] → parse bound s ≡ parse_from bound 0 s
unfolding parse is_digit
parse_unsigned bound [] d e = absurd (e refl)
parse_unsigned bound (c ∷ []) d e = refl
parse_unsigned bound (c ∷ x ∷ cs) d e = ground arith

print_onto-ne-nil : (f n : ℕ) (c : ℕ) (rest : Text) → print_onto f n (c ∷ rest) ≢ []
unfolding print_onto
print_onto-ne-nil zero n c rest = λ e. cc
print_onto-ne-nil (suc f) n c rest = elim (Bool-cases (ltb n 10)) [
  | inl small ↦ rw small (λ e. cc)
  | inr large ↦ rw large (print_onto-ne-nil f (n / 10) _ _)
]

print_onto-ne-nil_of_fuel : (f n : ℕ) (rest : Text) → 0 < f → print_onto f n rest ≢ []
unfolding print_onto
print_onto-ne-nil_of_fuel zero n rest h = elim h [ ]
print_onto-ne-nil_of_fuel (suc f) n rest h = elim (Bool-cases (ltb n 10)) [
  | inl small ↦ rw small (λ e. cc)
  | inr large ↦ rw large (print_onto-ne-nil f (n / 10) _ _)
]

pub print-ne-nil : (n : ℕ) → print n ≢ []
unfolding print
print-ne-nil n = print_onto-ne-nil_of_fuel (n + 1) n [] (omega arith)

-- Every number in range is read back.
pub parse-print : (bound n : ℕ) → n < bound → parse bound (print n) ≡ some n
unfolding print
parse-print bound n h =
    parse_unsigned bound (print n) (print-digits n) (print-ne-nil n)
    ∙ parse_from-print_onto bound (n + 1) n [] (omega arith) h
    ∙ unfold parse_from in refl

parse_from-lt :
    (bound acc : ℕ) (s : Text) (n : ℕ) → acc < bound → parse_from bound acc s ≡ some n → n < bound
unfolding parse_from
parse_from-lt bound acc [] n h e = ground arith
parse_from-lt bound acc (c ∷ cs) n h e =
    ground (arith, parse_from-lt bound (acc * 10 + (c - b'0')) cs n)

-- Nothing out of range is read.
pub parse-lt : (bound : ℕ) (s : Text) (n : ℕ) → 0 < bound → parse bound s ≡ some n → n < bound
unfolding parse
parse-lt bound [] n h e = ground arith
parse-lt bound (c ∷ []) n h e = parse_from-lt bound 0 (c ∷ []) n h e
parse-lt bound (c ∷ d ∷ cs) n h e =
    ground (arith, parse_from-lt bound 0 (d ∷ cs) n, parse_from-lt bound 0 (c ∷ d ∷ cs) n)

pub has-digits : (c : ℕ) (s : Text) → all is_digit s ≡ true → is_digit c ≡ false → has c s ≡ false
unfolding has
has-digits c [] h k = refl
has-digits c (x ∷ s) h k = ground (arith, has-digits c s, ==_iff x c)
