-- ===== src/Tests/Addresses.antt =====
-- Tests of the addresses and the routes: antie/src/care_of.rs, antie/src/config.rs, antie/src/skip_list.rs
-- and tot/src/main.rs.
use axiom_carriers.Base.{
  ℕ, Bool, true, false, Option, none, some, List, [], ◌≡◌, ◌≢◌, ◌↔◌, refl, ◌&&◌, any,
}
use axiom_carriers.Base.Text.{Text, codes, has, contains, same, trim}
use axiom_carriers.Antie.CareOf.{
  CareOf, domain_is_depositable, DeliveryPlan, email, deposit, refuse, recipient,
}
use axiom_carriers.Antie.CareOf.Parse.{Reads}
use axiom_carriers.Antie.Outbound.Routing.{IsAddressedTo, dual}
use axiom_carriers.Tot.Route.{nabla, parse_route}
use axiom_carriers.Tot.Route.Laws.{path_of, parse_route-path_of}
use native.Mathlib.Omega.{arith}

abbrev bob : CareOf
bob = record {
  inner = codes "bob@example.org";
  pickup = codes "pickup.net";
  fingerprint = codes "b2";
}

abbrev bob_address : Text
bob_address = codes "bob@example.org@pickup.net/b2"

bob-Reads : Reads bob_address bob (codes "bob") (codes "example.org")
unfolding has
bob-Reads = record {
  whole = refl;
  inner_is = refl;
  user_plain = refl;
  host_plain = refl;
  no_slash = refl;
  pickup_given = λ e. cc;
  fingerprint_given = λ e. cc;
}

-- A checksum that only one wallet id passes.
abbrev validate : Text → Bool
validate w = same w (codes "bob@example.org/b2")

alice_addressed : IsAddressedTo (codes "axiom") (codes "alice@axiom@node")
unfolding has
alice_addressed = dual (codes "alice") (codes "node") refl refl refl refl

parse_route-path_of_example : parse_route false (path_of (nabla 12)) ≡ some (nabla 12)
parse_route-path_of_example = parse_route-path_of false (nabla 12) (omega arith)

-- A pickup domain of one dot passes for a directory below the base.
one_dot : domain_is_depositable (codes ".") ≡ true
unfolding domain_is_depositable contains
one_dot = refl
