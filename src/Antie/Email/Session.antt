-- ===== src/Antie/Email/Session.antt =====
-- antie/src/email.rs: the session id that a custody header names.
use axiom_carriers.Base.{
  &&_iff, ==_iff, ℕ, suc, Bool, true, false, ◌&&◌, ◌==◌, ◌≡◌, refl, ap, ◌∙◌, Option, List, [], ◌∷◌,
  some, none, arith, all, length, if◌then◌else◌,
}
use axiom_carriers.Base.Text.{Text, codes, has, contains, starts_with, lower, lower_char, trim}
use axiom_carriers.Antie.Custody.{name_is_safe}
use axiom_carriers.Antie.Email.{
  Message, is_hex_digit, custody_id_of, or_later, custody_id, custody_of,
}

has-hex :
    (s : Text) (c : ℕ)
    → is_hex_digit c ≡ false
    → lower_char c ≡ c
    → all is_hex_digit s ≡ true
    → has c (lower s) ≡ false
unfolding has lower lower_char
has-hex [] c n l h = refl
has-hex (x ∷ s) c n l h = ground (arith, has-hex s c n l)

contains-dots : (s : Text) → has b'.' s ≡ false → contains s (codes "..") ≡ false
unfolding has contains starts_with
contains-dots [] h = refl
contains-dots (x ∷ s) h = ground (arith, contains-dots s)

hex-IsSafe : (s : Text) → length s ≡ 64 → all is_hex_digit s ≡ true → name_is_safe (lower s) ≡ true
unfolding name_is_safe lower lower_char
hex-IsSafe [] n h = absurd (omega (arith, n))
hex-IsSafe (x ∷ s) n h =
    let slash = has-hex (x ∷ s) b'/' refl refl h in
    let back = has-hex (x ∷ s) b'\\' refl refl h in
    let dots = contains-dots (lower (x ∷ s)) (has-hex (x ∷ s) b'.' refl refl h) in
    rw (slash, back, dots) refl

-- What a message says of its session is nothing, or an id that names one place.
abbrev pub SafeSession : Option (Text × Text) → Type 0
SafeSession none = Unit
SafeSession (some (name, id)) = (name_is_safe id ≡ true) × (length id ≡ 64)

length-lower : (s : Text) → length (lower s) ≡ length s
unfolding lower
length-lower [] = refl
length-lower (x ∷ s) = ap suc (length-lower s)

abbrev SafeId : Option Text → Type 0
SafeId none = Unit
SafeId (some id) = (name_is_safe id ≡ true) × (length id ≡ 64)

checked_id-SafeId :
    (id : Text) (b : Bool)
    → (length id == 64 && all is_hex_digit id) ≡ b
    → SafeId (if b then some (lower id) else none)
checked_id-SafeId id false e = tt
checked_id-SafeId id true e =
    let (n, h) = (&&_iff (length id == 64) (all is_hex_digit id)).0 e in
    let sized = (==_iff (length id) 64).0 n in (hex-IsSafe id sized h, length-lower id ∙ sized)

custody_id_of-SafeId : (o : Option Text) → SafeId (custody_id_of o)
unfolding custody_id
custody_id_of-SafeId none = tt
custody_id_of-SafeId (some raw) = checked_id-SafeId (trim raw) _ refl

or_later-SafeSession :
    (name : Text) (o : Option Text) (later : Option (Text × Text))
    → SafeId o
    → SafeSession later
    → SafeSession (or_later name o later)
or_later-SafeSession name none later h g = g
or_later-SafeSession name (some id) later h g = h

-- A session id of a message that arrives is sixty-four characters, none of which leads out of the
-- directory of the sessions, so a reply for it is deposited below that directory.
pub custody_of-SafeSession : (names : List Text) (m : Message) → SafeSession (custody_of names m)
unfolding custody_of
custody_of-SafeSession [] m = tt
custody_of-SafeSession (name ∷ names) m =
    or_later-SafeSession name (custody_id_of (m.header_raw name)) (custody_of names m)
      (custody_id_of-SafeId (m.header_raw name)) (custody_of-SafeSession names m)
