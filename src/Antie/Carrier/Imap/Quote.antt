-- ===== src/Antie/Carrier/Imap/Quote.antt =====
-- antie/src/carrier.rs, `imap_quote`: an argument reaches the server as it is, and is nothing else.
use axiom_carriers.Base.{
  ℕ, false, ◌||◌, ◌==◌, Option, none, some, [], ◌∷◌, ◌++◌, ◌≡◌, refl, arith, if◌then◌else◌,
  Bool-cases, inl, inr, append_assoc,
}
use axiom_carriers.Base.Text.{Text, has, has-append}
use axiom_carriers.Base.Result.{ok}
use axiom_carriers.Antie.Carrier.Imap.{escaped, imap_quote}

abbrev pub with_front : ℕ → Option (Text × Text) → Option (Text × Text)
with_front c none = none
with_front c (some (a, b)) = some (c ∷ a, b)

-- How a server reads the inside of a quoted string, and what stands behind it (RFC 9051, section 4.3).
unfoldable pub read_inside : Text → Option (Text × Text)
read_inside [] = none
read_inside (c ∷ []) = if c == b'"' then some ([], []) else none
read_inside (c ∷ d ∷ s) =
    let plain = read_inside (d ∷ s) in
    let pair = read_inside s in
    if c == b'"'
    then some ([], d ∷ s)
    else if c == b'\\'
    then with_front d pair
    else with_front c plain

unfoldable pub read_quoted : Text → Option (Text × Text)
unfolding read_inside
read_quoted [] = none
read_quoted (c ∷ s) = if c == b'"' then read_inside s else none

read_inside-plain :
    (c : ℕ) (t : Text)
    → (c == b'"') ≡ false
    → (c == b'\\') ≡ false
    → read_inside (c ∷ t) ≡ with_front c (read_inside t)
unfolding read_inside
read_inside-plain c [] q b = ground arith
read_inside-plain c (d ∷ t) q b = ground arith

read_inside-escaped : (s rest : Text) → read_inside (escaped s ++ b'"' ∷ rest) ≡ some (s, rest)
unfolding escaped read_inside
read_inside-escaped [] [] = refl
read_inside-escaped [] (r ∷ rest) = refl
read_inside-escaped (c ∷ s) rest = elim (Bool-cases (c == b'\\' || c == b'"')) [
  | inl special ↦ ground (arith, special, read_inside-escaped s rest)
  | inr other ↦
      ground
        (arith, other, read_inside-escaped s rest, read_inside-plain c (escaped s ++ b'"' ∷ rest))
]

has-escaped :
    (c : ℕ) (s : Text) → has c s ≡ false → (c == b'\\') ≡ false → has c (escaped s) ≡ false
unfolding escaped has
has-escaped c [] h n = refl
has-escaped c (x ∷ s) h n = ground (arith, has-escaped c s)

reads_back :
    (s rest : Text) → read_quoted (b'"' ∷ ((escaped s ++ b'"' ∷ []) ++ rest)) ≡ some (s, rest)
unfolding read_quoted
reads_back s rest = rw (append_assoc (escaped s) (b'"' ∷ []) rest) (read_inside-escaped s rest)

no_end :
    (c : ℕ) (s : Text)
    → (c == b'\\') ≡ false
    → (b'"' == c) ≡ false
    → has c s ≡ false
    → has c (b'"' ∷ (escaped s ++ b'"' ∷ [])) ≡ false
unfolding has
no_end c s b q h = ground (arith, has-append c (escaped s) (b'"' ∷ []), has-escaped c s h b)

-- A quoted argument is read back as it was by any server that reads quoted strings, whatever follows
-- it, and has no line end; an argument with a line end is refused.
pub read_quoted-imap_quote :
    (s q rest : Text)
    → imap_quote s ≡ ok q
    → (read_quoted (q ++ rest) ≡ some (s, rest)) × (has b'\n' q ≡ false) × (has b'\r' q ≡ false)
unfolding imap_quote
read_quoted-imap_quote s q rest e = elim (Bool-cases (has b'\r' s || has b'\n' s)) [
  | inl bad ↦ absurd (ground (arith, e, bad))
  | inr good ↦
      let q_is : q ≡ b'"' ∷ (escaped s ++ b'"' ∷ []) = ground (arith, e, good) in
      rw q_is (
        reads_back s rest,
        no_end b'\n' s refl refl (ground (arith, good)),
        no_end b'\r' s refl refl (ground (arith, good)),
      )
]
