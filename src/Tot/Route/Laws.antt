-- ===== src/Tot/Route/Laws.antt =====
-- tot/src/main.rs: the routes that exist, and no others.
use axiom_carriers.Base.{
  ℕ, ◌<◌, Bool, true, false, Option, none, some, ◌++◌, ◌≡◌, refl, arith, inl, inr, Option-cases,
}
use mathlib.Core.Path.{subst}
use axiom_carriers.Base.Text.{Text, codes, same, strip_prefix}
use axiom_carriers.Base.Decimal.{parse, print, parse-print, parse-lt}
use axiom_carriers.Tot.Route.{
  Route, intake, session, nabla, fatmama, usize_bound, indexed, numbered_route, fatmama_route,
  parse_route,
}

-- The path of a route.
pub path_of : Route → Text
path_of intake = codes "/intake"
path_of session = codes "/session"
path_of (nabla n) = codes "/nabla/" ++ print n
path_of (fatmama n) = codes "/fatmama/" ++ print n

-- An index fits a `usize`, and FATMAMA is reached only where the feature is compiled in.
abbrev pub IsReachable : Bool → Route → Type 0
IsReachable dev intake = Unit {0}
IsReachable dev session = Unit {0}
IsReachable dev (nabla n) = n < usize_bound
IsReachable dev (fatmama n) = (n < usize_bound) × (dev ≡ true)

-- Every route that can be reached has a path that leads to it.
pub parse_route-path_of :
    (dev : Bool) (r : Route) → IsReachable dev r → parse_route dev (path_of r) ≡ some r
unfolding parse_route path_of same strip_prefix
parse_route-path_of dev intake h = refl
parse_route-path_of dev session h = refl
parse_route-path_of dev (nabla n) h = rw (parse-print usize_bound n h)
parse_route-path_of dev (fatmama n) h = rw h.1 (rw (parse-print usize_bound n h.0))

indexed-IsReachable :
    (dev : Bool) (to : ℕ → Route) (idx : Text) (r : Route)
    → ((n : ℕ) → n < usize_bound → IsReachable dev (to n))
    → indexed to idx ≡ some r
    → IsReachable dev r
indexed-IsReachable dev to idx r h e = elim (Option-cases (parse usize_bound idx)) [
  | inl missing ↦ ground (arith, missing)
  | inr (n, found) ↦
      let e' : to n ≡ r = ground (arith, found) in
      subst (IsReachable dev) e' (h n (parse-lt usize_bound idx n (omega arith) found))
]

fatmama_route-IsReachable :
    (dev : Bool) (path : Text) (r : Route) → fatmama_route dev path ≡ some r → IsReachable dev r
fatmama_route-IsReachable true path r e =
    elim (Option-cases (strip_prefix path (codes "/fatmama/"))) [
      | inl missing ↦ ground (arith, missing)
      | inr (idx, found) ↦
          indexed-IsReachable true fatmama idx r (λ n h. (h, refl)) (ground (arith, found))
    ]
fatmama_route-IsReachable false path r e = ground arith

numbered_route-IsReachable :
    (dev : Bool) (path : Text) (o : Option Text) (r : Route)
    → numbered_route dev path o ≡ some r
    → IsReachable dev r
numbered_route-IsReachable dev path (some idx) r e =
    indexed-IsReachable dev nabla idx r (λ n h. h) e
numbered_route-IsReachable dev path none r e = fatmama_route-IsReachable dev path r e

-- No path leads anywhere else: an index is in range, and a build without the feature has no way to
-- FATMAMA.
parse_route-IsReachable :
    (dev : Bool) (path : Text) (r : Route) → parse_route dev path ≡ some r → IsReachable dev r
unfolding parse_route
parse_route-IsReachable dev path intake e = tt
parse_route-IsReachable dev path session e = tt
parse_route-IsReachable dev path (nabla n) e =
    numbered_route-IsReachable dev path (strip_prefix path (codes "/nabla/")) (nabla n)
      (ground arith)
parse_route-IsReachable dev path (fatmama n) e =
    numbered_route-IsReachable dev path (strip_prefix path (codes "/nabla/")) (fatmama n)
      (ground arith)
