-- ===== src/Antie/Outbound.antt =====
-- antie/src/config.rs: `OutboundConfig::outbox_for`, the outbound routing table.
pub mod Routing
use axiom_carriers.Base.{Bool, true, false, if◌then◌else◌, Option, none, some, List, [], ◌∷◌}
use axiom_carriers.Base.Text.{Text, has, before, lower, rsplit_once, same_ignore_case}
use axiom_carriers.Base.Result.{Result, ok, err}

pub record OutboundRoute : Type 0 where
  pub domain : Text
  pub outbox : Text

pub data Rejection : Type 0 where
  no_at no_route : Rejection

abbrev before_last : Text → Option (Text × Text) → Text
before_last whole none = whole
before_last whole (some (front, _)) = front

-- The part of the recipient that names the local directory.
unfoldable pub route_of : Text → Text
route_of addressed =
    let inner = before_last addressed (rsplit_once b'@' addressed) in
    if has b'@' inner then inner else addressed

-- The loop over `self.route`.
unfoldable pub find_route : List OutboundRoute → Text → Result Rejection (Option Text)
find_route [] domain = err no_route
find_route (r ∷ rs) domain =
    if same_ignore_case r.domain domain then ok (some r.outbox) else find_route rs domain

abbrev find_domain : List OutboundRoute → Option (Text × Text) → Result Rejection (Option Text)
find_domain rows none = err no_at
find_domain rows (some (_, d)) = find_route rows (lower (before b'/' d))

unfoldable pub outbox_for : List OutboundRoute → Text → Result Rejection (Option Text)
outbox_for [] recipient = ok none
outbox_for (r ∷ rs) recipient =
    find_domain (r ∷ rs) (rsplit_once b'@' (route_of (before b'/' recipient)))
