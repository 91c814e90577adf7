-- ===== src/Tot/Stamp/Headers.antt =====
-- tot/src/main.rs, `stamp_session`: exactly one stamp, and nothing else is touched.
use axiom_carriers.Base.{
  ℕ, Bool, true, false, not, ◌==◌, if◌then◌else◌, some, List, [], ◌∷◌, ◌++◌, ◌≡◌, ◌≢◌, refl, arith,
  ap, ◌∙◌, Bool-cases, inl, inr, append_assoc, keep, ◌⊎◌, append-nil, sym,
}
use axiom_carriers.Base.Text.{Text, codes, has, has-append, lower, starts_with, lower_char}
use axiom_carriers.Disk.{Bytes}
use axiom_carriers.Tot.Utf8.{lossy}
use axiom_carriers.Tot.Stamp.{
  push_front, split_inclusive, is_blank, is_stamp, trim_breaks, kept, joined, stamp_line,
  stamp_session,
}

-- A complete line.
abbrev pub IsLine : Bytes → Type 0
IsLine l = (front : Bytes) × (has b'\n' front ≡ false) × (l ≡ front ++ b'\n' ∷ [])

split_inclusive-line :
    (front rest : Bytes)
    → has b'\n' front ≡ false
    → split_inclusive (front ++ b'\n' ∷ rest) ≡ (front ++ b'\n' ∷ []) ∷ split_inclusive rest
unfolding split_inclusive push_front has
split_inclusive-line [] rest h = refl
split_inclusive-line (c ∷ front) rest h = ground (arith, split_inclusive-line front rest)

-- A last line without a break.
abbrev pub IsLast : Bytes → List Bytes → Type 0
IsLast l ls = (ls ≡ []) × (l ≢ []) × (has b'\n' l ≡ false)

abbrev pub AreLines : List Bytes → Type 0
AreLines [] = Unit
AreLines (l ∷ ls) = (IsLine l ⊎ IsLast l ls) × AreLines ls

push_front-AreLines :
    (c : ℕ) (ls : List Bytes) → (c == b'\n') ≡ false → AreLines ls → AreLines (push_front c ls)
unfolding push_front has
push_front-AreLines c [] h a = (inr (refl, (λ e. cc), ground arith), tt)
push_front-AreLines c (l ∷ ls) h (inl (front, plain, e), a) =
    (inl (c ∷ front, ground arith, ap (◌∷◌ c) e), a)
push_front-AreLines c (l ∷ ls) h (inr (last, full, plain), a) =
    (inr (last, (λ e. cc), ground arith), a)

split_inclusive-AreLines : (raw : Bytes) → AreLines (split_inclusive raw)
unfolding split_inclusive has
split_inclusive-AreLines [] = tt
split_inclusive-AreLines (c ∷ cs) = elim (Bool-cases (c == b'\n')) [
  | inl break ↦
      let e : c ≡ b'\n' = ground arith in
      rw break ((inl ([], refl, ap (λ x. x ∷ []) e), split_inclusive-AreLines cs))
  | inr plain ↦
      rw plain (push_front-AreLines c (split_inclusive cs) plain (split_inclusive-AreLines cs))
]

split_inclusive-last : (l : Bytes) → l ≢ [] → has b'\n' l ≡ false → split_inclusive l ≡ l ∷ []
unfolding split_inclusive push_front has
split_inclusive-last [] h p = absurd (h refl)
split_inclusive-last (c ∷ []) h p = ground arith
split_inclusive-last (c ∷ d ∷ l) h p = ground (arith, split_inclusive-last (d ∷ l) (λ e. cc))

split_inclusive-joined : (ls : List Bytes) → AreLines ls → split_inclusive (joined ls) ≡ ls
unfolding joined split_inclusive
split_inclusive-joined [] h = refl
split_inclusive-joined (l ∷ ls) (inl (front, plain, e), a) =
    rw (e, append_assoc front (b'\n' ∷ []) (joined ls))
      (split_inclusive-line front (joined ls) plain ∙ rw (split_inclusive-joined ls a) refl)
split_inclusive-joined (l ∷ ls) (inr (last, full, plain), a) =
    rw last (rw (append-nil l) (split_inclusive-last l full plain))

kept-nil : (b : Bool) (ls : List Bytes) → ls ≡ [] → kept b ls ≡ []
unfolding kept
kept-nil b ls e = rw e refl

still-IsLine :
    (b : Bool) (l : Bytes) (ls : List Bytes)
    → IsLine l ⊎ IsLast l ls
    → IsLine l ⊎ IsLast l (kept b ls)
still-IsLine b l ls (inl line) = inl line
still-IsLine b l ls (inr (last, full, plain)) = inr (kept-nil b ls last, full, plain)

kept-AreLines : (b : Bool) (ls : List Bytes) → AreLines ls → AreLines (kept b ls)
unfolding kept
kept-AreLines b [] h = tt
kept-AreLines false (l ∷ ls) h = (still-IsLine false l ls h.0, kept-AreLines false ls h.1)
kept-AreLines true (l ∷ ls) h = elim (Bool-cases (is_blank l)) [
  | inl blank ↦ rw blank ((still-IsLine false l ls h.0, kept-AreLines false ls h.1))
  | inr text ↦ elim (Bool-cases (is_stamp l)) [
    | inl stamp ↦ rw (text, stamp) (kept-AreLines true ls h.1)
    | inr other ↦ rw (text, other) ((still-IsLine true l ls h.0, kept-AreLines true ls h.1))
  ]
]

-- The header block, and the rest from its blank line on.
pub header_lines : List Bytes → List Bytes
header_lines [] = []
header_lines (l ∷ ls) = let rest = header_lines ls in if is_blank l then [] else l ∷ rest

pub body_lines : List Bytes → List Bytes
body_lines [] = []
body_lines (l ∷ ls) = let rest = body_lines ls in if is_blank l then l ∷ ls else rest

kept_body : (ls : List Bytes) → kept false ls ≡ ls
unfolding kept
kept_body [] = refl
kept_body (l ∷ ls) = ap (◌∷◌ l) (kept_body ls)

kept_blocks :
    (ls : List Bytes)
    → (header_lines (kept true ls) ≡ keep (λ l. not (is_stamp l)) (header_lines ls))
      × (body_lines (kept true ls) ≡ body_lines ls)
unfolding kept header_lines body_lines
kept_blocks [] = (refl, refl)
kept_blocks (l ∷ ls) = elim (Bool-cases (is_blank l)) [
  | inl blank ↦ rw blank (ground (arith, blank, kept_body ls))
  | inr text ↦ elim (Bool-cases (is_stamp l)) [
    | inl stamp ↦ rw (text, stamp) (kept_blocks ls)
    | inr other ↦ rw (text, other) (ground (arith, text, other, kept_blocks ls))
  ]
]

stamp_line_text : (id : Text) → is_blank (stamp_line id) ≡ false
unfolding is_blank trim_breaks
stamp_line_text id = refl

stamp_line-IsLine : (id : Text) → has b'\n' id ≡ false → IsLine (stamp_line id)
unfolding has
stamp_line-IsLine id h = (
  codes "X-TOT-Session: " ++ id ++ b'\r' ∷ [],
  ground (arith, has-append b'\n' id (b'\r' ∷ [])),
  ap (λ x. codes "X-TOT-Session: " ++ x) (sym (append_assoc id (b'\r' ∷ []) (b'\n' ∷ []))),
)

-- The header block of what TOT writes is the session's stamp and then the message's own header lines
-- in order, without any stamp that the client sent; and the body is that of the decoded message.
pub stamp_session_blocks :
    (raw : Bytes) (id : Text) (out : Bytes)
    → has b'\n' id ≡ false
    → stamp_session raw id ≡ some out
    → let lines = split_inclusive (lossy raw) in
      (header_lines (split_inclusive out)
        ≡ stamp_line id ∷ keep (λ l. not (is_stamp l)) (header_lines lines))
      × (body_lines (split_inclusive out) ≡ body_lines lines)
unfolding stamp_session header_lines body_lines
stamp_session_blocks raw id out h e =
    let ls = split_inclusive (lossy raw) in
    let written : stamp_line id ++ joined (kept true ls) ≡ out = ground arith in
    let whole : split_inclusive (stamp_line id ++ joined (kept true ls))
        ≡ stamp_line id ∷ kept true ls =
      split_inclusive-joined (stamp_line id ∷ kept true ls) (
        inl (stamp_line-IsLine id h),
        kept-AreLines true ls (split_inclusive-AreLines (lossy raw)),
      ) in
    let blocks = kept_blocks ls in
    rw (← written)
      (rw whole (rw (stamp_line_text id) (ap (◌∷◌ (stamp_line id)) blocks.0, blocks.1)))

none_left : (ls : List Bytes) → keep is_stamp (keep (λ l. not (is_stamp l)) ls) ≡ []
none_left [] = refl
none_left (l ∷ ls) = ground (arith, none_left ls)

stamp_line_stamp : (id : Text) → is_stamp (stamp_line id) ≡ true
unfolding is_stamp trim_breaks lower lower_char starts_with
stamp_line_stamp id = refl

-- The header block of what TOT writes holds exactly one stamp, and it is the session's: a client cannot
-- choose where its reply goes.
stamp_session_once :
    (raw : Bytes) (id : Text) (out : Bytes)
    → has b'\n' id ≡ false
    → stamp_session raw id ≡ some out
    → keep is_stamp (header_lines (split_inclusive out)) ≡ stamp_line id ∷ []
stamp_session_once raw id out h e =
    let blocks = stamp_session_blocks raw id out h e in
    rw (blocks.0, stamp_line_stamp id)
      (ap (◌∷◌ (stamp_line id)) (none_left (header_lines (split_inclusive (lossy raw)))))
