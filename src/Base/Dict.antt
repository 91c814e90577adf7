-- ===== src/Base/Dict.antt =====
-- A `HashMap` with text keys, as an association list.
use axiom_carriers.Base.Tests.{if◌then◌else◌}
use axiom_carriers.Base.Text.{Text, same, same_iff}
use mathlib.Core.Path.{◌≡◌}
use mathlib.Core.Bool.{Bool, true}
use mathlib.Core.Option.{Option, none, some}
use mathlib.Core.List.{List, [], ◌∷◌}
use native.Mathlib.Omega.{arith}

module _ {A : Type 0} where
  abbrev pub get : Text → List (Text × A) → Option A
  get k [] = none
  get k ((x, a) ∷ d) = if same x k then some a else get k d

  abbrev pub put : Text → A → List (Text × A) → List (Text × A)
  put k a [] = (k, a) ∷ []
  put k a ((x, b) ∷ d) = let rest = put k a d in if same x k then (k, a) ∷ d else (x, b) ∷ rest

  abbrev pub retain : (A → Bool) → List (Text × A) → List (Text × A)
  retain p [] = []
  retain p ((x, a) ∷ d) = let rest = retain p d in if p a then (x, a) ∷ rest else rest

  pub get-put :
      (k j : Text) (a : A) (d : List (Text × A))
      → get j (put k a d) ≡ (if same k j then some a else get j d)
  get-put k j a [] = ground arith
  get-put k j a ((x, b) ∷ d) =
      ground (arith, get-put k j a d, same_iff x k, same_iff k j, same_iff x j)

  -- An entry that the filter keeps is found again, if its key has no other entry in front.
  pub get-retain :
      (p : A → Bool) (k : Text) (a : A) (d : List (Text × A))
      → get k d ≡ some a
      → p a ≡ true
      → get k (retain p d) ≡ some a
  get-retain p k a [] e h = ground arith
  get-retain p k a ((x, b) ∷ d) e h = ground (arith, get-retain p k a d)
