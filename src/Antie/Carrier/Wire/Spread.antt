-- ===== src/Antie/Carrier/Wire/Spread.antt =====
-- antie/src/carrier.rs, `read_exact`: which bytes it gives, however they arrive.
use axiom_carriers.Base.{
  ℕ, zero, suc, ◌≤◌, Bool, true, false, List, [], ◌∷◌, ◌++◌, ◌≡◌, refl, ap, ◌∙◌, arith, length,
  length-append, take, drop, leb, if◌then◌else◌, append_assoc,
}
use axiom_carriers.Base.Result.{ok}
use axiom_carriers.Disk.{Bytes}
use axiom_carriers.Antie.Carrier.Wire.{
  Event, received, broken, silent, Wire, Block, block, short, block_as, pull_exact, next_block,
  read_exact,
}
use axiom_carriers.Antie.Carrier.Wire.Laws.{stream, pending, Leaves}

take-exact : (b rest : Bytes) → take (length b) (b ++ rest) ≡ b
take-exact [] rest = refl
take-exact (x ∷ b) rest = ap (◌∷◌ x) (take-exact b rest)

drop-exact : (b rest : Bytes) → drop (length b) (b ++ rest) ≡ rest
drop-exact [] rest = refl
drop-exact (x ∷ b) rest = drop-exact b rest

take_of_le : (n : ℕ) (a s : Bytes) → n ≤ length a → take n a ≡ take n (a ++ s)
take_of_le zero a s h = refl
take_of_le (suc n) [] s h = absurd (omega arith)
take_of_le (suc n) (x ∷ a) s h = ap (◌∷◌ x) (take_of_le n a s (omega arith))

drop_of_le : (n : ℕ) (a s : Bytes) → n ≤ length a → drop n a ++ s ≡ drop n (a ++ s)
drop_of_le zero a s h = refl
drop_of_le (suc n) [] s h = absurd (omega arith)
drop_of_le (suc n) (x ∷ a) s h = drop_of_le n a s (omega arith)

abbrev Splits : Bytes → Bytes → Block → Type 0
Splits b rest (block l left es) = (l ≡ b) × (left ++ stream es ≡ rest)
Splits b rest (short _ _) = ⊥

module _ (b rest : Bytes) where
  enough :
      (acc : Bytes) (es : List Event)
      → length b ≤ length acc
      → acc ++ stream es ≡ b ++ rest
      → Splits b rest (block (take (length b) acc) (drop (length b) acc) es)
  enough acc es h e = (
    take_of_le (length b) acc (stream es) h ∙ ap (take (length b)) e ∙ take-exact b rest,
    drop_of_le (length b) acc (stream es) h ∙ ap (drop (length b)) e ∙ drop-exact b rest,
  )

  choose :
      (c : Bool) (l r : Block)
      → (c ≡ true → Splits b rest l)
      → (c ≡ false → Splits b rest r)
      → Splits b rest (if c then l else r)
  choose true l r f g = f refl
  choose false l r f g = g refl

  too_short : (acc : Bytes) → leb (length b) (length acc) ≡ false → acc ++ [] ≡ b ++ rest → ⊥
  too_short acc h e =
      let held : length b ≤ length acc =
        omega (arith, ap length e, length-append acc [], length-append b rest) in
      absurd (ground (arith, h, held))

  pull_exact-Splits :
      (acc : Bytes) (es : List Event)
      → leb (length b) (length acc) ≡ false
      → acc ++ stream es ≡ b ++ rest
      → Splits b rest (pull_exact (length b) acc es)
  unfolding pull_exact
  pull_exact-Splits acc [] h e = absurd (too_short acc h e)
  pull_exact-Splits acc (broken ∷ es) h e = absurd (too_short acc h e)
  pull_exact-Splits acc (silent ∷ es) h e = absurd (too_short acc h e)
  pull_exact-Splits acc (received [] ∷ es) h e = absurd (too_short acc h e)
  pull_exact-Splits acc (received (x ∷ xs) ∷ es) h e =
      let longer = acc ++ (x ∷ xs) in
      let e' = append_assoc acc (x ∷ xs) (stream es) ∙ e in
      choose (leb (length b) (length longer))
        (block (take (length b) longer) (drop (length b) longer) es)
        (pull_exact (length b) longer es) (λ h'. enough longer es (ground (arith, h')) e')
        (λ h'. pull_exact-Splits longer es h' e')

  next_block-Splits :
      (buf : Bytes) (es : List Event)
      → buf ++ stream es ≡ b ++ rest
      → Splits b rest (next_block (length b) buf es)
  unfolding next_block
  next_block-Splits buf es e =
      choose (leb (length b) (length buf)) (block (take (length b) buf) (drop (length b) buf) es)
        (pull_exact (length b) buf es) (λ h'. enough buf es (ground (arith, h')) e)
        (λ h'. pull_exact-Splits buf es h' e)

  block_as_pending :
      (w : Wire) (r : Block)
      → Splits b rest r
      → ((block_as r w).0 ≡ ok b) × Leaves w rest (block_as r w).1
  block_as_pending w (block l left es) (same, behind) = (ap ok same, (behind, refl, refl, refl))
  block_as_pending w (short _ _) x = elim x [ ]

  -- The bytes that are asked for are read, however they are spread over the reads.
  pub read_exact-pending :
      (w : Wire)
      → pending w ≡ b ++ rest
      → ((read_exact (length b) w).0 ≡ ok b) × Leaves w rest (read_exact (length b) w).1
  unfolding read_exact
  read_exact-pending w e =
      block_as_pending w (next_block (length b) w.buffer w.incoming)
        (next_block-Splits w.buffer w.incoming e)
