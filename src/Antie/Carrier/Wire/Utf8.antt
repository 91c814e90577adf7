-- ===== src/Antie/Carrier/Wire/Utf8.antt =====
-- `str::from_utf8`, as the line reader of antie/src/carrier.rs uses it: the characters of bytes that
-- are UTF-8.
use axiom_carriers.Base.{
  ℕ, zero, suc, ◌+◌, ◌*◌, ltb, ◌%◌, true, if◌then◌else◌, Option, none, some, [], ◌∷◌, ◌++◌, ◌≡◌,
  refl, arith,
}
use axiom_carriers.Base.Text.{Text}
use axiom_carriers.Disk.{Bytes}
use axiom_carriers.Tot.Utf8.{Utf8, between, inside, lead, in_range, is_ascii}

-- The character that the bytes of one sequence encode: six bits of each byte after the first.
abbrev value_of : Bytes → ℕ
value_of [] = 0
value_of (a ∷ []) = a
value_of (a ∷ b ∷ []) = (a % 32) * 64 + b % 64
value_of (a ∷ b ∷ c ∷ []) = (a % 16) * 4096 + (b % 64) * 64 + c % 64
value_of (a ∷ b ∷ c ∷ d ∷ _) = (a % 8) * 262144 + (b % 64) * 4096 + (c % 64) * 64 + d % 64

-- What a byte completes, and the state behind it, if it may stand here.
abbrev begun : Utf8 → Option (Text × Utf8)
begun between = none
begun (inside seen n lo hi) = some ([], inside seen n lo hi)

abbrev continued : Bytes → ℕ → Option (Text × Utf8)
continued seen zero = none
continued seen (suc zero) = some (value_of seen ∷ [], between)
continued seen (suc (suc n)) = some ([], inside seen (suc n) 0x80 0xBF)

unfoldable pub strict_step : Utf8 → ℕ → Option (Text × Utf8)
unfolding lead
strict_step between c = if ltb c 0x80 then some (c ∷ [], between) else begun (lead c)
strict_step (inside seen n lo hi) c =
    if in_range lo hi c then continued (seen ++ c ∷ []) n else none

abbrev prefixed : Text → Option Text → Option Text
prefixed t none = none
prefixed t (some u) = some (t ++ u)

unfoldable pub decode_from : Utf8 → Bytes → Option Text
unfolding strict_step
decode_from between [] = some []
decode_from (inside _ _ _ _) [] = none
decode_from s (c ∷ cs) = elim (strict_step s c) [
  | none ↦ none
  | some r ↦ prefixed r.0 (decode_from r.1 cs)
]

unfoldable pub decode : Bytes → Option Text
unfolding decode_from
decode = decode_from between

-- ASCII stands for itself.
pub decode-ascii : (b : Bytes) → is_ascii b ≡ true → decode b ≡ some b
unfolding decode
decode-ascii [] h = refl
decode-ascii (c ∷ cs) h = ground (arith, decode-ascii cs)
