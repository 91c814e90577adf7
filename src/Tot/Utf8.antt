-- ===== src/Tot/Utf8.antt =====
-- `String::from_utf8_lossy`, as tot/src/main.rs uses it: what is not UTF-8 becomes U+FFFD, one for
-- each sequence that is cut short.
use axiom_carriers.Base.{
  ℕ, Bool, true, ◌&&◌, leb, ltb, ◌==◌, if◌then◌else◌, [], ◌∷◌, ◌++◌, ◌≡◌, refl, arith, all, zero,
  suc,
}
use axiom_carriers.Disk.{Bytes}

-- Between two characters, or inside one: its bytes so far, how many are missing, and the range of the
-- next one.
pub data Utf8 : Type 0 where
  between : Utf8
  inside : Bytes → ℕ → ℕ → ℕ → Utf8

abbrev pub replacement : Bytes
replacement = 0xEF ∷ 0xBF ∷ 0xBD ∷ []

abbrev pub in_range : ℕ → ℕ → ℕ → Bool
in_range lo hi c = leb lo c && leb c hi

-- What the first byte of a character says; `between` if it is none.
unfoldable pub lead : ℕ → Utf8
lead c =
    if in_range 0xC2 0xDF c
    then inside (c ∷ []) 1 0x80 0xBF
    else if c == 0xE0
    then inside (c ∷ []) 2 0xA0 0xBF
    else if c == 0xED
    then inside (c ∷ []) 2 0x80 0x9F
    else if in_range 0xE1 0xEF c
    then inside (c ∷ []) 2 0x80 0xBF
    else if c == 0xF0
    then inside (c ∷ []) 3 0x90 0xBF
    else if in_range 0xF1 0xF3 c
    then inside (c ∷ []) 3 0x80 0xBF
    else if c == 0xF4
    then inside (c ∷ []) 3 0x80 0x8F
    else between

abbrev opened : Utf8 → Bytes × Utf8
opened between = (replacement, between)
opened (inside seen n lo hi) = ([], inside seen n lo hi)

-- The output for a byte, and the state behind it.
unfoldable pub first : ℕ → Bytes × Utf8
unfolding lead
first c = if ltb c 0x80 then (c ∷ [], between) else opened (lead c)

abbrev advanced : Bytes → ℕ → Bytes × Utf8
advanced seen zero = (seen, between)
advanced seen (suc zero) = (seen, between)
advanced seen (suc (suc n)) = ([], inside seen (suc n) 0x80 0xBF)

unfoldable pub step : Utf8 → ℕ → Bytes × Utf8
unfolding first
step between c = first c
step (inside seen n lo hi) c =
    if in_range lo hi c
    then advanced (seen ++ c ∷ []) n
    else (replacement ++ (first c).0, (first c).1)

unfoldable pub lossy_from : Utf8 → Bytes → Bytes
unfolding step
lossy_from between [] = []
lossy_from (inside _ _ _ _) [] = replacement
lossy_from s (c ∷ cs) = let r = step s c in r.0 ++ lossy_from r.1 cs

abbrev pub lossy : Bytes → Bytes
lossy = lossy_from between

abbrev pub is_ascii : Bytes → Bool
is_ascii raw = all (λ c. ltb c 0x80) raw

pub lossy-ascii : (raw : Bytes) → is_ascii raw ≡ true → lossy raw ≡ raw
unfolding lossy_from step first
lossy-ascii [] h = refl
lossy-ascii (c ∷ cs) h = ground (arith, lossy-ascii cs)
