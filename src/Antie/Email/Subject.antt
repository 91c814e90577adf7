-- ===== src/Antie/Email/Subject.antt =====
-- antie/src/email.rs: which subjects `parse_subject` reads, and what it makes of them.
use axiom_carriers.Base.{
  Bool, false, ◌++◌, ◌≡◌, refl, sym, ap, ◌∙◌, ◌↔◌, inl, inr, Option-cases, Bool-cases, ◌∷◌, arith,
  if◌then◌else◌,
}
use axiom_carriers.Base.Text.{
  Text, codes, has, same, same_iff, same_refl, split_once, split_once-eq-some, split_once-eq-none,
}
use axiom_carriers.Base.Split.{split-append, split-none, split-cases, join_pieces-split}
use axiom_carriers.Base.Result.{Result, ok, err}
use axiom_carriers.Antie.Email.{parse_subject}
use axiom_carriers.Antie.Node.{AntieError, email_parse_error}

abbrev worded : Bool → Text × Text → Result AntieError (Text × Text)
worded b p = if b then ok p else err email_parse_error

-- What the three pieces make of a subject that has two separators.
parse_subject-append :
    (a t r : Text)
    → has b'/' a ≡ false
    → has b'/' t ≡ false
    → parse_subject (a ++ b'/' ∷ (t ++ b'/' ∷ r)) ≡ worded (same a (codes "AXIOM")) (t, r)
unfolding parse_subject
parse_subject-append a t r ha ht =
    let (p, ps, h) = split-cases b'/' r in
    let back = rw h at (join_pieces-split b'/' r) in
    rw (split-append b'/' a (t ++ b'/' ∷ r) ha, split-append b'/' t r ht, h, back) refl

parse_subject-short : (s : Text) → has b'/' s ≡ false → parse_subject s ≡ err email_parse_error
unfolding parse_subject
parse_subject-short s h = rw (split-none b'/' s h) refl

parse_subject-pair :
    (a t : Text)
    → has b'/' a ≡ false
    → has b'/' t ≡ false
    → parse_subject (a ++ b'/' ∷ t) ≡ err email_parse_error
unfolding parse_subject
parse_subject-pair a t ha ht = rw (split-append b'/' a t ha, split-none b'/' t ht) refl

axiom_plain : has b'/' (codes "AXIOM") ≡ false
unfolding has
axiom_plain = refl

pieces_back :
    (s a t' r' t r : Text)
    → s ≡ a ++ b'/' ∷ (t' ++ b'/' ∷ r')
    → has b'/' t' ≡ false
    → worded (same a (codes "AXIOM")) (t', r') ≡ ok (t, r)
    → (s ≡ codes "AXIOM/" ++ (t ++ b'/' ∷ r)) × (has b'/' t ≡ false)
pieces_back s a t' r' t r whole ht got = elim (Bool-cases (same a (codes "AXIOM"))) [
  | inl y ↦
      let word = (same_iff a (codes "AXIOM")).0 y in
      let parts = rw y at got in rw (whole, word) (ground (arith, parts, ht))
  | inr n ↦ absurd (ground (arith, n, got))
]

parse_subject_back :
    (s t r : Text)
    → parse_subject s ≡ ok (t, r)
    → (s ≡ codes "AXIOM/" ++ (t ++ b'/' ∷ r)) × (has b'/' t ≡ false)
parse_subject_back s t r e = elim (Option-cases (split_once b'/' s)) [
  | inl n ↦ absurd (ground (arith, parse_subject-short s (split_once-eq-none b'/' s n)))
  | inr ((a, b), u) ↦
      let (whole, ha) = split_once-eq-some b'/' s a b u in
      elim (Option-cases (split_once b'/' b)) [
        | inl n ↦
            absurd (ground (arith, parse_subject-pair a b ha (split_once-eq-none b'/' b n), whole))
        | inr ((t', r'), v) ↦
            let (rest, ht) = split_once-eq-some b'/' b t' r' v in
            let whole' = whole ∙ ap (λ x. a ++ b'/' ∷ x) rest in
            pieces_back s a t' r' t r whole' ht
              (sym (parse_subject-append a t' r' ha ht) ∙ ap parse_subject (sym whole') ∙ e)
      ]
]

-- A subject is read as a type and a request id exactly if it is `AXIOM/<type>/<request id>` with no
-- further separator in the type: the id keeps all of its own.
pub parse_subject_iff :
    (s t r : Text)
    → (parse_subject s ≡ ok (t, r))
      ↔ ((s ≡ codes "AXIOM/" ++ (t ++ b'/' ∷ r)) × (has b'/' t ≡ false))
parse_subject_iff s t r = (
  parse_subject_back s t r,
  λ (e, h). rw e (
      parse_subject-append (codes "AXIOM") t r axiom_plain h ∙ rw (same_refl (codes "AXIOM")) refl),
)
