-- ===== src/Antie/CareOf/Parse.antt =====
-- antie/src/care_of.rs: what `parse_care_of` accepts, and what it returns.
use axiom_carriers.Base.{false, ◌++◌, Option-cases, ◌≢◌, inl, inr, ◌∙◌}
use axiom_carriers.Base.{some, [], ◌∷◌, ◌≡◌, refl, arith}
use axiom_carriers.Base.Text.{
  Text, has, split_once, rsplit_once, split_once-append, rsplit_once-append, split_once-eq-some,
  rsplit_once-eq-some,
}
use axiom_carriers.Antie.CareOf.{CareOf, parse_care_of}

-- `addr` is `user@host@pickup/fingerprint`, cut at its first two `@` and its last `/`.
pub record Reads (addr : Text) (co : CareOf) (user host : Text) : Type 0 where
  pub whole : addr ≡ (user ++ b'@' ∷ (host ++ b'@' ∷ co.pickup)) ++ b'/' ∷ co.fingerprint
  pub inner_is : co.inner ≡ user ++ b'@' ∷ host
  pub user_plain : has b'@' user ≡ false
  pub host_plain : has b'@' host ≡ false
  pub no_slash : has b'/' co.fingerprint ≡ false
  pub pickup_given : co.pickup ≢ []
  pub fingerprint_given : co.fingerprint ≢ []

-- Every address of the care-of form is read, whatever its parts hold.
parse_care_of_complete :
    (addr : Text) (co : CareOf) (user host : Text)
    → Reads addr co user host
    → parse_care_of addr ≡ some co
unfolding parse_care_of
parse_care_of_complete addr co user host r =
    let rest = host ++ b'@' ∷ co.pickup in
    rw r.whole (
      ground (
        arith,
        rsplit_once-append b'/' (user ++ b'@' ∷ rest) co.fingerprint r.no_slash,
        split_once-append b'@' user rest r.user_plain,
        split_once-append b'@' host co.pickup r.host_plain,
      ))

module _ (addr : Text) (co : CareOf) (addressed fp user rest host pickup : Text) where
  abbrev Cuts : Type 0
  Cuts =
      (rsplit_once b'/' addr ≡ some (addressed, fp))
      × (split_once b'@' addressed ≡ some (user, rest))
      × (split_once b'@' rest ≡ some (host, pickup))
      × (fp ≢ [])
      × (pickup ≢ [])
      × (co ≡ record { inner = user ++ b'@' ∷ host; pickup = pickup; fingerprint = fp })

  Reads-cuts : Cuts → Reads addr co user host
  Reads-cuts (a, b, c, d, e, f) =
      let (x, y) = rsplit_once-eq-some b'/' addr addressed fp a in
      let (z, w) = split_once-eq-some b'@' addressed user rest b in
      let (u, v) = split_once-eq-some b'@' rest host pickup c in
      rw f (record {
        whole = x ∙ rw (z, u);
        inner_is = refl;
        user_plain = w;
        host_plain = v;
        no_slash = y;
        pickup_given = e;
        fingerprint_given = d;
      })

-- What is read is cut out of the address: nothing is invented, and the inner address has one `@`.
parse_care_of_sound :
    (addr : Text) (co : CareOf)
    → parse_care_of addr ≡ some co
    → (user : Text) × (host : Text) × Reads addr co user host
unfolding parse_care_of
parse_care_of_sound addr co e = elim (Option-cases (rsplit_once b'/' addr)) [
  | inl n ↦ absurd (ground (arith, n))
  | inr (p, s) ↦ elim (Option-cases (split_once b'@' p.0)) [
    | inl n ↦ absurd (ground (arith, n, s))
    | inr (q, t) ↦ elim (Option-cases (split_once b'@' q.1)) [
      | inl n ↦ absurd (ground (arith, n, s, t))
      | inr (r, u) ↦ (
        q.0,
        r.0,
        Reads-cuts addr co p.0 p.1 q.0 q.1 r.0 r.1
            (s, t, u, ground arith, ground arith, ground arith),
      )
    ]
  ]
]
