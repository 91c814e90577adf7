-- ===== src/Tot/Session/Cleared.antt =====
-- tot/src/main.rs, `session_leg` with `SessionDir`: a session from its opening to its end.
use axiom_carriers.Base.{
  ℕ, if◌then◌else◌, none, some, List, [], ◌∷◌, ◌++◌, ◌≡◌, refl, sym, ap, ◌∙◌, arith, All, inl, inr,
  ◌⊎◌, Bool-cases,
}
use axiom_carriers.Base.Text.{Text, same, same_iff}
use axiom_carriers.Base.Result.{Result, ok, err, Result-cases}
use axiom_carriers.Antie.UncleSink.{hex}
use axiom_carriers.Disk.{
  Bytes, Files, Disk, IoError, Turn, works, refused, torn, lookup, join, call, next_turn,
}
use axiom_carriers.Disk.Holds.{call-files}
use axiom_carriers.Tot.Maildir.{Inbox}
use axiom_carriers.Tot.RateLimiter.{RateLimiter}
use axiom_carriers.Tot.Session.{
  Session, Ending, no_directory, Event, session_loop, is_under, erase_under, remove_turn,
  remove_dir_all, dropped, session_in, session_leg,
}
use axiom_carriers.Tot.Session.Genuine.{Holds}
use axiom_carriers.Tot.Session.Faithful.{IsApart, Deposits, session_loop-Genuine}

lookup-erase_under :
    (dir p : Text) (fs : Files)
    → lookup p (erase_under dir fs) ≡ (if is_under dir p then none else lookup p fs)
unfolding lookup erase_under
lookup-erase_under dir p [] = ground arith
lookup-erase_under dir p ((q, c) ∷ fs) = elim (Bool-cases (same q p)) [
  | inl e ↦ ground (arith, e, ap (is_under dir) ((same_iff q p).0 e), lookup-erase_under dir p fs)
  | inr e ↦ ground (arith, e, lookup-erase_under dir p fs)
]

-- The directory is gone with all that lay in it, and all other files are as they were.
abbrev pub Cleared : Text → Files → Files → Type 0
Cleared dir before after =
    (p : Text) → lookup p after ≡ (if is_under dir p then none else lookup p before)

remove_turn-Cleared :
    (t : Turn) (dir : Text) (d : Disk)
    → (remove_turn t dir d).0 ≡ ok tt
    → Cleared dir d.files (remove_turn t dir d).1.files
remove_turn-Cleared (works _) dir d e p = lookup-erase_under dir p d.files
remove_turn-Cleared refused dir d e p = absurd (ground (arith, e))
remove_turn-Cleared (torn _) dir d e p = absurd (ground (arith, e))

module _ (P : Bytes → Type 0) (inbox : Inbox) (cap : ℕ) (entropy : Bytes) (outbox : Text) where
  abbrev pub dir_of : Text
  dir_of = join outbox (hex entropy)

  -- The session in its directory, before that is removed.
  abbrev pub ran : List Event → RateLimiter → Session → Result Ending (Unit {0}) × Session
  ran es l s =
      session_loop inbox cap (hex entropy) dir_of es l (record s { disk = (call s.disk).1 })

  -- What a session has done when it is over: its answer is the loop's, it has sent only what satisfies
  -- `P`, and its directory is cleared unless the removal fails.
  abbrev pub Over : List Event → RateLimiter → Session → Result Ending (Unit {0}) × Session → Type 0
  Over es l s r =
      (r.0 ≡ (ran es l s).0)
      × ((new : List Bytes) × (r.1.sent ≡ s.sent ++ new) × All P new)
      × ((remove_dir_all dir_of (ran es l s).1.disk).0 ≡ ok tt
          → Cleared dir_of (ran es l s).1.disk.files r.1.disk.files)

  opened-Over :
      (es : List Event) (l : RateLimiter) (s : Session)
      → All (IsApart inbox dir_of) es
      → All (Deposits P) es
      → Holds P dir_of s.disk.files
      → Over es l s (dropped dir_of (ran es l s))
  unfolding remove_dir_all
  opened-Over es l s apart d h =
      let s' = record s { disk = (call s.disk).1 } in
      let g =
        session_loop-Genuine P inbox cap (hex entropy) dir_of es l s' apart d
          (λ p b is e. h p b is (ap (lookup p) (sym (call-files s.disk)) ∙ e)) in
      (
        refl,
        g.0,
        remove_turn-Cleared (next_turn (ran es l s).1.disk.turns) dir_of (ran es l s).1.disk,
      )

  opened :
      (es : List Event) (l : RateLimiter) (s : Session) (u : Unit {0})
      → (call s.disk).0 ≡ ok u
      → session_in inbox cap (hex entropy) es l dir_of s ≡ dropped dir_of (ran es l s)
  opened es l s u e = λ i. elim (e i) [
    | ok _ ↦ dropped dir_of (ran es l s)
    | err _ ↦ (err no_directory, record s { disk = (call s.disk).1 })
  ]

  unopened :
      (es : List Event) (l : RateLimiter) (s : Session) (x : IoError)
      → (call s.disk).0 ≡ err x
      → session_in inbox cap (hex entropy) es l dir_of s
        ≡ (err no_directory, record s { disk = (call s.disk).1 })
  unopened es l s x e = λ i. elim (e i) [
    | ok _ ↦ dropped dir_of (ran es l s)
    | err _ ↦ (err no_directory, record s { disk = (call s.disk).1 })
  ]

  -- A session on the socket, from its opening to its end: it does not open, with nothing sent, or it
  -- sends only replies that were deposited for it, whole, and on every way out its directory goes, unless
  -- that very removal fails; then its answer is still the loop's.
  pub session_leg-Over :
      (es : List Event) (l : RateLimiter) (s : Session)
      → All (IsApart inbox dir_of) es
      → All (Deposits P) es
      → Holds P dir_of s.disk.files
      → let r = session_leg inbox cap (some entropy) (some outbox) es l s in
        ((r.0 ≡ err no_directory) × (r.1.sent ≡ s.sent)) ⊎ Over es l s r
  unfolding session_leg
  session_leg-Over es l s apart d h = elim (Result-cases (call s.disk).0) [
    | inl (u, e) ↦ inr (rw (opened es l s u e) (opened-Over es l s apart d h))
    | inr (x, e) ↦ inl (rw (unopened es l s x e) (refl, refl))
  ]
