-- ===== src/Antie/Outbound/Routing.antt =====
-- antie/src/config.rs: the table is exact, fails closed, and routes a dual-`@` address on its inner
-- domain.
use axiom_carriers.Base.{true, false, Option, none, some, List, [], ◌∷◌}
use axiom_carriers.Base.{◌++◌, ◌≡◌, ◌≢◌, refl, arith, All, inl, inr, Bool-cases, ℕ, ap, ◌==◌}
use axiom_carriers.Base.Text.{
  Text, has, has-append, before, before-append, before-none, lower, lower_idem, rsplit_once,
  rsplit_once-append, same, same_iff, same_ignore_case,
}
use axiom_carriers.Base.Result.{Result, ok, err}
use axiom_carriers.Antie.Outbound.{OutboundRoute, Rejection, route_of, find_route, outbox_for}

-- `recipient` is `local@domain`, or `user@domain@host`, with or without a `/fingerprint`.
pub data IsAddressedTo (domain : Text) : Text → Type 0 where
  plain :
      (user : Text)
      → has b'@' user ≡ false
      → has b'/' user ≡ false
      → IsAddressedTo domain (user ++ b'@' ∷ domain)
  dual :
      (user host : Text)
      → has b'@' user ≡ false
      → has b'/' user ≡ false
      → has b'@' host ≡ false
      → has b'/' host ≡ false
      → IsAddressedTo domain ((user ++ b'@' ∷ domain) ++ b'@' ∷ host)

has-at :
    (c : ℕ) (a b : Text)
    → has c a ≡ false
    → has c b ≡ false
    → (b'@' == c) ≡ false
    → has c (a ++ b'@' ∷ b) ≡ false
unfolding has
has-at c a b h k n = rw has-append (ground arith)

has_at_self : (a b : Text) → has b'@' (a ++ b'@' ∷ b) ≡ true
unfolding has
has_at_self a b = rw has-append (ground arith)

-- The routing domain of an address without its tail.
route_of-IsAddressedTo :
    (domain addressed : Text)
    → has b'@' domain ≡ false
    → has b'/' domain ≡ false
    → IsAddressedTo domain addressed
    → (has b'/' addressed ≡ false)
      × ((user : Text) × (rsplit_once b'@' (route_of addressed) ≡ some (user, domain)))
unfolding route_of
route_of-IsAddressedTo domain _ at slash (plain user a s) = (
  has-at b'/' user domain s slash refl,
  (user, ground (arith, rsplit_once-append b'@' user domain at)),
)
route_of-IsAddressedTo domain _ at slash (dual user host a s h hs) = (
  has-at b'/' (user ++ b'@' ∷ domain) host (has-at b'/' user domain s slash refl) hs refl,
  (
    user,
    ground (
      arith,
      rsplit_once-append b'@' (user ++ b'@' ∷ domain) host h,
      rsplit_once-append b'@' user domain at,
      has_at_self user domain,
    ),
  ),
)

find_route-lower :
    (rows : List OutboundRoute) (d : Text) → find_route rows (lower d) ≡ find_route rows d
unfolding find_route same_ignore_case
find_route-lower [] d = refl
find_route-lower (r ∷ rs) d = rw (lower_idem d) (ground (arith, find_route-lower rs d))

outbox_for-addressed :
    (rows : List OutboundRoute) (domain addressed : Text) (text : Text)
    → rows ≢ []
    → has b'@' domain ≡ false
    → has b'/' domain ≡ false
    → IsAddressedTo domain addressed
    → before b'/' text ≡ addressed
    → outbox_for rows text ≡ find_route rows domain
unfolding outbox_for
outbox_for-addressed [] domain addressed text ne at slash a e = absurd (ne refl)
outbox_for-addressed (r ∷ rs) domain addressed text ne at slash a e =
    let (plain_tail, (user, cut)) = route_of-IsAddressedTo domain addressed at slash a in
    rw (e, cut) (rw (before-none b'/' domain slash) (find_route-lower (r ∷ rs) domain))

-- A table that is in use sends an address to the first row for its domain, or refuses it.
outbox_for-find_route :
    (rows : List OutboundRoute) (domain recipient tail : Text)
    → rows ≢ []
    → has b'@' domain ≡ false
    → has b'/' domain ≡ false
    → IsAddressedTo domain recipient
    → (outbox_for rows recipient ≡ find_route rows domain)
      × (outbox_for rows (recipient ++ b'/' ∷ tail) ≡ find_route rows domain)
outbox_for-find_route rows domain recipient tail ne at slash a =
    let (plain_tail, _) = route_of-IsAddressedTo domain recipient at slash a in
    (
      outbox_for-addressed rows domain recipient recipient ne at slash a
          (before-none b'/' recipient plain_tail),
      outbox_for-addressed rows domain recipient _ ne at slash a
          (before-append b'/' recipient tail plain_tail),
    )

-- A row for the very domain, with no such row before it.
pub record FirstMatch (rows : List OutboundRoute) (domain outbox : Text) : Type 0 where
  pub earlier : List OutboundRoute
  pub row : OutboundRoute
  pub later : List OutboundRoute
  pub rows_are : rows ≡ earlier ++ row ∷ later
  pub exact : lower row.domain ≡ lower domain
  pub outbox_is : outbox ≡ row.outbox
  pub others : All (λ r. lower r.domain ≢ lower domain) earlier

abbrev pub Means : List OutboundRoute → Text → Result Rejection (Option Text) → Type 0
Means rows domain (ok (some outbox)) = FirstMatch rows domain outbox
Means rows domain (ok none) = ⊥
Means rows domain (err _) = All (λ r. lower r.domain ≢ lower domain) rows

Means-cons :
    (r : OutboundRoute) (rs : List OutboundRoute) (domain : Text)
    → lower r.domain ≢ lower domain
    → (o : Result Rejection (Option Text)) → Means rs domain o
    → Means (r ∷ rs) domain o
Means-cons r rs domain n (ok (some outbox)) m = record {
  earlier = r ∷ m.earlier;
  row = m.row;
  later = m.later;
  rows_are = ap (◌∷◌ r) m.rows_are;
  exact = m.exact;
  outbox_is = m.outbox_is;
  others = (n, m.others);
}
Means-cons r rs domain n (ok none) m = m
Means-cons r rs domain n (err _) m = (n, m)

-- A message is written to the outbox of the first row for its very domain, letter case aside, and is
-- refused where no row has it.
find_route-Means :
    (rows : List OutboundRoute) (domain : Text) → Means rows domain (find_route rows domain)
unfolding find_route same_ignore_case
find_route-Means [] domain = tt
find_route-Means (r ∷ rs) domain = elim (Bool-cases (same (lower r.domain) (lower domain))) [
  | inl e ↦ rw e (record {
    earlier = [];
    row = r;
    later = rs;
    rows_are = refl;
    exact = (same_iff _ _).0 e;
    outbox_is = refl;
    others = tt;
  })
  | inr n ↦ rw n (
      Means-cons r rs domain (λ e. cc ((same_iff _ _).1 e)) (find_route rs domain)
        (find_route-Means rs domain))
]
