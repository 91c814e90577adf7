-- ===== src/Tot/Route.antt =====
-- tot/src/main.rs: the route of a WebSocket request.
pub mod Laws
use axiom_carriers.Base.{ℕ, ◌^◌, Bool, if◌then◌else◌, Option, none, some, [], ◌∷◌}
use axiom_carriers.Base.Text.{Text, codes, same, strip_prefix}
use axiom_carriers.Base.Decimal.{parse}
use axiom_carriers.Base.Maybe.{◌>>=◌}

pub data Route : Type 0 where
  intake session : Route
  nabla : ℕ → Route
  fatmama : ℕ → Route

abbrev pub usize_bound : ℕ
usize_bound = 2 ^ 64

-- `idx.parse::<usize>().ok().map(…)`
abbrev pub indexed : (ℕ → Route) → Text → Option Route
indexed to idx = do n ← parse usize_bound idx; some (to n)

abbrev pub fatmama_route : Bool → Text → Option Route
fatmama_route dev path =
    if dev then (do idx ← strip_prefix path (codes "/fatmama/"); indexed fatmama idx) else none

abbrev pub numbered_route : Bool → Text → Option Text → Option Route
numbered_route dev path (some idx) = indexed nabla idx
numbered_route dev path none = fatmama_route dev path

-- `dev` is the feature `dev-fatmama`.
unfoldable pub parse_route : Bool → Text → Option Route
parse_route dev path =
    if same path (codes "/intake")
    then some intake
    else if same path (codes "/session")
    then some session
    else numbered_route dev path (strip_prefix path (codes "/nabla/"))
