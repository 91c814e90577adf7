-- ===== src/Antie/Carrier/Wire/Exact.antt =====
-- antie/src/carrier.rs, `read_exact`: the bytes that are asked for, and no more.
use axiom_carriers.Base.{
  ℕ, zero, suc, ◌+◌, ◌≤◌, Bool, true, false, List, [], ◌∷◌, ◌++◌, ◌≢◌, inl, inr, arith, length,
  length-append, take, drop, leb, if◌then◌else◌,
}
use axiom_carriers.Base.Result.{Result, ok, err, Result-cases}
use axiom_carriers.Disk.{Bytes}
use axiom_carriers.Antie.Carrier.Wire.{
  Event, received, broken, silent, Wire, ◌>>=◌, pure, Fail, exhausted, Block, block, short,
  block_as, pull_exact, next_block, read_exact,
}
use axiom_carriers.Antie.Carrier.Wire.Laws.{bind-ok, bind-err}
use axiom_carriers.Antie.Carrier.Wire.Loop.{Next, again, done, weight, size, Held}

-- What a block leaves is no more than what there was.
abbrev Fits : ℕ → Block → Type 0
Fits n (block l b es) = length b + weight es ≤ n
Fits n (short e es) = e ≢ exhausted

length-drop : (n : ℕ) (b : Bytes) → length (drop n b) ≤ length b
length-drop zero b = omega arith
length-drop (suc n) [] = omega arith
length-drop (suc n) (x ∷ b) = omega (arith, length-drop n b)

Fits-mono : (n m : ℕ) (r : Block) → n ≤ m → Fits n r → Fits m r
Fits-mono n m (block l b es) h t = omega arith
Fits-mono n m (short e es) h t = t

module _ (need : ℕ) (acc : Bytes) (es : List Event) (otherwise : Block) where
  if-Fits :
      (n : ℕ) (b : Bool)
      → length acc + weight es ≤ n
      → Fits n otherwise
      → Fits n (if b then block (take need acc) (drop need acc) es else otherwise)
  if-Fits n true h f = omega (arith, length-drop need acc)
  if-Fits n false h f = f

pull_exact-Fits :
    (need : ℕ) (acc : Bytes) (es : List Event)
    → Fits (length acc + weight es) (pull_exact need acc es)
unfolding pull_exact
pull_exact-Fits need acc [] = λ e. cc
pull_exact-Fits need acc (broken ∷ es) = λ e. cc
pull_exact-Fits need acc (silent ∷ es) = λ e. cc
pull_exact-Fits need acc (received [] ∷ es) = λ e. cc
pull_exact-Fits need acc (received (x ∷ xs) ∷ es) =
    let longer = acc ++ (x ∷ xs) in
    let more = length-append acc (x ∷ xs) in
    if-Fits need longer es (pull_exact need longer es) _ (leb need (length longer))
      (omega (arith, more))
      (Fits-mono _ _ (pull_exact need longer es) (omega (arith, more))
        (pull_exact-Fits need longer es))

next_block-Fits :
    (need : ℕ) (buf : Bytes) (es : List Event)
    → Fits (length buf + weight es) (next_block need buf es)
unfolding next_block
next_block-Fits need buf es =
    if-Fits need buf es (pull_exact need buf es) _ (leb need (length buf)) (omega arith)
      (pull_exact-Fits need buf es)

-- A step that keeps what it does not take.
abbrev Keeps : {A : Type 0} → Wire → Result Fail A × Wire → Type 0
Keeps w (ok a, w') = size w' ≤ size w
Keeps w (err e, w') = e ≢ exhausted

block_as-Keeps : (w : Wire) (b : Block) → Fits (size w) b → Keeps w (block_as b w)
block_as-Keeps w (block _ _ _) h = h
block_as-Keeps w (short e _) h = h

read_exact-Keeps : (need : ℕ) (w : Wire) → Keeps w (read_exact need w)
unfolding read_exact
read_exact-Keeps need w =
    block_as-Keeps w (next_block need w.buffer w.incoming)
      (next_block-Fits need w.buffer w.incoming)

kept-Held : {S A : Type 0} (w w' : Wire) (n : Next S A) → size w' ≤ size w → Held w (ok n, w')
kept-Held w w' (again s) h = h
kept-Held w w' (done a) h = tt

pub exact-Held :
    {S A : Type 0} (need : ℕ) (f : Bytes → Next S A) (w : Wire)
    → Held w ((read_exact need >>= λ b. pure (f b)) w)
exact-Held need f w = elim (Result-cases (read_exact need w).0) [
  | inl (b, e) ↦
      rw (bind-ok (read_exact need) (λ b'. pure (f b')) w b e)
        (kept-Held w (read_exact need w).1 (f b) (rw e at (read_exact-Keeps need w)))
  | inr (x, e) ↦
      rw (bind-err (read_exact need) (λ b'. pure (f b')) w x e) (rw e at (read_exact-Keeps need w))
]
