-- ===== src/Tot/Session/Genuine.antt =====
-- tot/src/main.rs, `pump_replies`, with antie/src/custody.rs: what a session sends of a directory in
-- which ANTIE deposits.
use axiom_carriers.Base.{
  ℕ, ◌+◌, ◌<◌, Bool, true, false, if◌then◌else◌, Option, none, some, List, [], ◌∷◌, ◌++◌, ◌≡◌, ◌≢◌,
  refl, sym, ap, ◌∙◌, arith, All, All-append, inl, inr, ◌⊎◌, append_assoc, append-nil, Bool-cases,
  length, length-append,
}
use mathlib.Core.Option.{some-injective}
use axiom_carriers.Base.Text.{Text, codes, same, same_iff, has, strip_prefix-append}
use axiom_carriers.Base.Result.{Result, ok, err}
use axiom_carriers.Disk.{Bytes, Files, Disk, IoError, lookup, join, with_separator}
use axiom_carriers.Disk.Laws.{join-join, starts_with-has, same-length}
use axiom_carriers.Disk.Publish.{Publication, publication, Published, Intact, Post}
use axiom_carriers.Antie.Custody.{name_is_safe, tmp_path}
use axiom_carriers.Antie.Custody.Atomic.{tmp_path-apart, deposit_unsafe, deposit-Published}
use axiom_carriers.Tot.Session.{Session, Ending, name_in, is_reply, pump_replies, custody}
use axiom_carriers.Tot.Session.Listing.{IsReply, listed-IsReply}
use axiom_carriers.Tot.Session.Pumped.{Hold, pump_replies-Sent}

-- The temporary file of a deposit does not count as a reply.
tmp_no_reply : (dir name : Text) → has b'/' name ≡ false → is_reply dir (tmp_path dir name) ≡ false
unfolding is_reply name_in axiom_carriers.Base.Text.starts_with has
tmp_no_reply dir name plain =
    rw (join-join dir (codes "tm") name b'p' refl (starts_with-has name plain) refl)
      (rw (strip_prefix-append (with_separator dir) (codes "tmp/" ++ name)) refl)

reply_not_tmp :
    (dir name p : Text) → has b'/' name ≡ false → IsReply dir p → same (tmp_path dir name) p ≡ false
reply_not_tmp dir name p plain is = elim (Bool-cases (same (tmp_path dir name) p)) [
  | inl e ↦ absurd (
      ground (
        arith,
        tmp_no_reply dir name plain,
        is,
        ap (is_reply dir) ((same_iff (tmp_path dir name) p).0 e),
      ))
  | inr e ↦ e
]

-- Whatever a publication came to, its files are intact.
Post-Intact :
    (p : Publication) (r : Result IoError Text × Disk)
    → Post p (λ path e. Published p e × (path ≡ p.dest)) r
    → Intact p r.1.files
Post-Intact p (ok a, d) h = h.0.0.0
Post-Intact p (err e, d) h = h.0

abbrev quiet : Disk → Disk
quiet d = record d { seen = [] }

module _ (dir name : Text) (bytes : Bytes) (d : Disk) (safe : name_is_safe name ≡ true) where
  plain : has b'/' name ≡ false
  unfolding name_is_safe
  plain = ground (arith, safe)

  -- A path longer than the two that a deposit names.
  abbrev far : Text
  far = tmp_path dir name ++ (join dir name ++ b'x' ∷ [])

  far_tmp : same (tmp_path dir name) far ≡ false
  far_tmp = same-length (tmp_path dir name) far (λ e. omega (
    arith,
    e,
    length-append (tmp_path dir name) (join dir name ++ b'x' ∷ []),
    length-append (join dir name) (b'x' ∷ []),
  ))

  far_dest : same (join dir name) far ≡ false
  far_dest = same-length (join dir name) far (λ e. omega (
    arith,
    e,
    length-append (tmp_path dir name) (join dir name ++ b'x' ∷ []),
    length-append (join dir name) (b'x' ∷ []),
  ))

  custody_there :
      let after = lookup (join dir name) (custody dir name bytes d).files in
      (after ≡ lookup (join dir name) d.files) ⊎ (after ≡ some bytes)
  custody_there =
      (Post-Intact
        (publication (tmp_path dir name) (join dir name) far bytes (quiet d)
          (tmp_path-apart dir name safe) far_tmp far_dest)
        _ (deposit-Published dir name far bytes (quiet d) safe far_tmp far_dest refl)).0

  custody_elsewhere :
      (p : Text)
      → IsReply dir p
      → same (join dir name) p ≡ false
      → lookup p (custody dir name bytes d).files ≡ lookup p d.files
  custody_elsewhere p is other =
      (Post-Intact
        (publication (tmp_path dir name) (join dir name) p bytes (quiet d)
          (tmp_path-apart dir name safe) (reply_not_tmp dir name p plain is) other)
        _
        (deposit-Published dir name p bytes (quiet d) safe (reply_not_tmp dir name p plain is) other
          refl)).1

-- All replies in the directory satisfy `P`.
abbrev pub Holds : (Bytes → Type 0) → Text → Files → Type 0
Holds P dir fs = (p : Text) (b : Bytes) → IsReply dir p → lookup p fs ≡ some b → P b

module _ (P : Bytes → Type 0) (dir : Text) where
  custody_safe :
      (name : Text) (bytes : Bytes) (d : Disk) (safe : name_is_safe name ≡ true)
      → P bytes
      → Holds P dir d.files
      → Holds P dir (custody dir name bytes d).files
  custody_safe name bytes d safe pb h p b is e = elim (Bool-cases (same (join dir name) p)) [
    | inr other ↦ h p b is (sym (custody_elsewhere dir name bytes d safe p is other) ∙ e)
    | inl at ↦
        let q = (same_iff (join dir name) p).0 at in
        let there : lookup (join dir name) (custody dir name bytes d).files ≡ some b =
          ap (λ x. lookup x (custody dir name bytes d).files) q ∙ e in
        elim (custody_there dir name bytes d safe) [
          | inl old ↦ h (join dir name) b (ap (is_reply dir) q ∙ is) (sym old ∙ there)
          | inr new ↦ rw (some-injective b bytes (sym there ∙ new)) pb
        ]
  ]

  pub custody-Holds :
      (name : Text) (bytes : Bytes) (d : Disk)
      → P bytes
      → Holds P dir d.files
      → Holds P dir (custody dir name bytes d).files
  custody-Holds name bytes d pb h = elim (Bool-cases (name_is_safe name)) [
    | inl safe ↦ custody_safe name bytes d safe pb h
    | inr unsafe ↦ λ p b is e. h p b is (
        sym (
          ap (λ (r : Result IoError Text × Disk). lookup p r.1.files)
            (deposit_unsafe dir name bytes (quiet d) unsafe))
        ∙ e)
  ]

  -- The replies of a run that sends from the directory.
  sent-All :
      (fs : Files) (ps : List Text) (bs : List Bytes)
      → All (IsReply dir) ps
      → Hold fs ps bs
      → Holds P dir fs
      → All P bs
  sent-All fs [] [] is h all = tt
  sent-All fs [] (_ ∷ _) is h all = elim h [ ]
  sent-All fs (_ ∷ _) [] is h all = elim h [ ]
  sent-All fs (p ∷ ps) (b ∷ bs) (i, is) (h, hs) all = (all p b i h, sent-All fs ps bs is hs all)

  front-All : {A : Type 0} (Q : A → Type 0) (xs ys : List A) → All Q (xs ++ ys) → All Q xs
  front-All Q [] ys h = tt
  front-All Q (x ∷ xs) ys (h, hs) = (h, front-All Q xs ys hs)

  -- What a run has put on the socket satisfies `P`, and so do the replies that are left.
  abbrev pub Genuine : {A : Type 0} → Session → Result Ending A × Session → Type 0
  Genuine s r =
      ((new : List Bytes) × (r.1.sent ≡ s.sent ++ new) × All P new) × Holds P dir r.1.disk.files

  pub pump_replies-Genuine :
      (s : Session) → Holds P dir s.disk.files → Genuine s (pump_replies dir s)
  pump_replies-Genuine s h =
      let t = pump_replies-Sent dir s in
      let all = listed-IsReply dir s.disk.files in
      let front = front-All (IsReply dir) t.front t.back (rw t.are at all) in
      (
        (t.bytes, t.sent, sent-All s.disk.files t.front t.bytes front t.held h),
        λ p b is e. h p b is (t.fewer p b e),
      )

  pub nothing_sent :
      {A : Type 0} (s : Session) (r : Result Ending A) → Holds P dir s.disk.files → Genuine s (r, s)
  nothing_sent s r h = (([], sym (append-nil s.sent), tt), h)

  pub sent_before :
      {A B : Type 0} (s : Session) (r : Result Ending A × Session) (r' : Result Ending B × Session)
      → Genuine s r
      → Genuine r.1 r'
      → Genuine s r'
  sent_before s r r' ((new, e, p), h) ((new', e', p'), h') = (
    (
      new ++ new',
      e' ∙ ap (λ x. x ++ new') e ∙ append_assoc s.sent new new',
      All-append P new new' p p',
    ),
    h',
  )
