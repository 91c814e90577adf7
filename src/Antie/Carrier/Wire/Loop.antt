-- ===== src/Antie/Carrier/Wire/Loop.antt =====
-- The read loops of antie/src/carrier.rs: each round takes something from the connection, so a loop
-- ends, whatever the server does.
use axiom_carriers.Base.{
  if◌then◌else◌, ℕ, zero, suc, ◌+◌, ◌<◌, ◌≤◌, Bool, true, false, none, some, List, [], ◌∷◌, ◌++◌,
  ◌≡◌, refl, ◌≢◌, inl, inr, arith, length, length-append, Option-cases,
}
use axiom_carriers.Base.Text.{Text, split_once, split_once-eq-some}
use axiom_carriers.Base.Result.{Result, ok, err, Result-cases}
use axiom_carriers.Disk.{Bytes}
use axiom_carriers.Antie.Carrier.Wire.{
  Event, received, broken, silent, Wire, Net, ◌>>=◌, pure, Fail, exhausted, Line, line, cut, lf,
  pull, next_line, valid_line, read_as, read_line,
}
use axiom_carriers.Antie.Carrier.Wire.Utf8.{decode}
use axiom_carriers.Antie.Carrier.Wire.Laws.{
  bind-ok, bind-err, pull_done, pull-more, next_line_done, next_line-pull,
}

-- Whether a round was the last one.
pub data Next (S A : Type 0) : Type 0 where
  again : S → Next S A
  done : A → Next S A

abbrev pub weight : List Event → ℕ
weight [] = 0
weight (received c ∷ es) = suc (length c + weight es)
weight (broken ∷ es) = suc (weight es)
weight (silent ∷ es) = suc (weight es)

-- What a connection can still give, in bytes and events.
abbrev pub size : Wire → ℕ
size w = length w.buffer + weight w.incoming

abbrev pub after : {S A : Type 0} → (S → Net A) → Result Fail (Next S A) → Net A
after more (err e) w = (err e, w)
after more (ok (done a)) w = (ok a, w)
after more (ok (again s)) w = more s w

unfoldable pub rounds : {S A : Type 0} → (S → Net (Next S A)) → ℕ → S → Net A
rounds body zero s w = (err exhausted, w)
rounds body (suc n) s w = let r = body s w in after (rounds body n) r.0 r.1

module _ {S A : Type 0} (body : S → Net (Next S A)) (n : ℕ) (s : S) (w w' : Wire) where
  pub rounds-again :
      (s' : S) → body s w ≡ (ok (again s'), w') → rounds body (suc n) s w ≡ rounds body n s' w'
  unfolding rounds
  rounds-again s' e = rw (e, rounds) refl

  pub rounds-done : (a : A) → body s w ≡ (ok (done a), w') → rounds body (suc n) s w ≡ (ok a, w')
  unfolding rounds
  rounds-done a e = rw (e, rounds) refl

-- A loop: what the connection can still give bounds its rounds.
unfoldable pub loop : {S A : Type 0} → (S → Net (Next S A)) → S → Net A
unfolding rounds
loop body s w = rounds body (suc (size w)) s w

-- A round of a loop that goes on has taken something, and none runs out.
abbrev pub Progress : {S A : Type 0} → Wire → Result Fail (Next S A) × Wire → Type 0
Progress w (err e, w') = e ≢ exhausted
Progress w (ok (done a), w') = Unit
Progress w (ok (again s), w') = size w' < size w

abbrev pub Ends : {A : Type 0} → Result Fail A → Type 0
Ends (ok a) = Unit
Ends (err e) = e ≢ exhausted

module _ {S A : Type 0} (body : S → Net (Next S A))
    (step : (s : S) (w : Wire) → Progress w (body s w)) where
  after-Ends :
      (n : ℕ) (w : Wire) (r : Result Fail (Next S A) × Wire)
      → ((s' : S) (w' : Wire) → size w' < n → Ends (rounds body n s' w').0)
      → size w < suc n
      → Progress w r
      → Ends (after (rounds body n) r.0 r.1).0
  after-Ends n w (err e, w') more h p = p
  after-Ends n w (ok (done a), w') more h p = tt
  after-Ends n w (ok (again s), w') more h p = more s w' (omega arith)

  rounds-Ends : (n : ℕ) (s : S) (w : Wire) → size w < n → Ends (rounds body n s w).0
  unfolding rounds
  rounds-Ends zero s w h = elim h [ ]
  rounds-Ends (suc n) s w h = after-Ends n w (body s w) (rounds-Ends n) h (step s w)

  -- A loop whose rounds make progress ends, on every connection.
  pub loop-Ends : (s : S) (w : Wire) → Ends (loop body s w).0
  unfolding loop
  loop-Ends s w = rounds-Ends (suc (size w)) s w (omega arith)

-- What a line leaves is less than what there was.
abbrev Takes : ℕ → Line → Type 0
Takes n (line l b es) = length b + weight es < n
Takes n (cut e es) = e ≢ exhausted

length-cut : (acc a b : Bytes) → split_once lf acc ≡ some (a, b) → length b < length acc
length-cut acc a b s =
    let (e, _) = split_once-eq-some lf acc a b s in rw e (omega (arith, length-append a (lf ∷ b)))

Takes-mono : (n m : ℕ) (r : Line) → n ≤ m → Takes n r → Takes m r
Takes-mono n m (line l b es) h t = omega arith
Takes-mono n m (cut e es) h t = t

pull-Takes : (acc : Bytes) (es : List Event) → Takes (length acc + weight es) (pull acc es)
unfolding pull
pull-Takes acc [] = λ e. cc
pull-Takes acc (broken ∷ es) = λ e. cc
pull-Takes acc (silent ∷ es) = λ e. cc
pull-Takes [] (received [] ∷ es) = λ e. cc
pull-Takes (a ∷ acc) (received [] ∷ es) = omega arith
pull-Takes acc (received (x ∷ xs) ∷ es) = elim (Option-cases (split_once lf (acc ++ (x ∷ xs)))) [
  | inl n ↦ rw (pull-more acc x xs es n) (
      Takes-mono _ _ (pull (acc ++ (x ∷ xs)) es) (omega (arith, length-append acc (x ∷ xs)))
        (pull-Takes (acc ++ (x ∷ xs)) es))
  | inr ((a, b), s) ↦
      rw (pull_done acc x xs es a b s)
        (omega (arith, length-append acc (x ∷ xs), length-cut (acc ++ (x ∷ xs)) a b s))
]

next_line-Takes :
    (buf : Bytes) (es : List Event) → Takes (length buf + weight es) (next_line buf es)
next_line-Takes buf es = elim (Option-cases (split_once lf buf)) [
  | inl n ↦ rw (next_line-pull buf es n) (pull-Takes buf es)
  | inr ((a, b), s) ↦ rw (next_line_done buf es a b s) (omega (arith, length-cut buf a b s))
]

-- A step that takes something: what it leaves is less, and it does not run out.
abbrev pub Shrinks : {A : Type 0} → Wire → Result Fail A × Wire → Type 0
Shrinks w (ok a, w') = size w' < size w
Shrinks w (err e, w') = e ≢ exhausted

read_as-Shrinks : (w : Wire) (r : Line) → Takes (size w) r → Shrinks w (read_as r w)
read_as-Shrinks w (line l b es) t =
    elim (decode l) as (λ o. Shrinks w (valid_line l o, record w { buffer = b; incoming = es })) [
      | none ↦ λ e. cc
      | some _ ↦ t
    ]
read_as-Shrinks w (cut e es) t = t

pub read_line-Shrinks : (w : Wire) → Shrinks w (read_line w)
unfolding read_line
read_line-Shrinks w =
    read_as-Shrinks w (next_line w.buffer w.incoming) (next_line-Takes w.buffer w.incoming)

-- The same for a step inside a round: it gives nothing back.
abbrev pub Held : {S A : Type 0} → Wire → Result Fail (Next S A) × Wire → Type 0
Held w (err e, w') = e ≢ exhausted
Held w (ok (done a), w') = Unit
Held w (ok (again s), w') = size w' ≤ size w

Held-Progress :
    {S A : Type 0} (w w' : Wire) (r : Result Fail (Next S A) × Wire)
    → size w' < size w
    → Held w' r
    → Progress w r
Held-Progress w w' (err e, v) h k = k
Held-Progress w w' (ok (done a), v) h k = tt
Held-Progress w w' (ok (again s), v) h k = omega arith

-- A round that starts with a line makes progress.
pub line-Progress :
    {S A : Type 0} (f : Bytes × Text → Net (Next S A)) (w : Wire)
    → ((l : Bytes × Text) (w' : Wire) → Held w' (f l w'))
    → Progress w ((read_line >>= f) w)
line-Progress f w h = elim (Result-cases (read_line w).0) [
  | inl (l, e) ↦ rw (bind-ok read_line f w l e) (
      Held-Progress w (read_line w).1 (f l (read_line w).1) (rw e at (read_line-Shrinks w))
        (h l (read_line w).1))
  | inr (x, e) ↦ rw (bind-err read_line f w x e) (rw e at (read_line-Shrinks w))
]

pub pure-Held : {S A : Type 0} (n : Next S A) (w : Wire) → Held w (pure n w)
pure-Held (again s) w = omega arith
pure-Held (done a) w = tt

pub if-Held :
    {S A : Type 0} (b : Bool) (m k : Net (Next S A)) (w : Wire)
    → Held w (m w)
    → Held w (k w)
    → Held w ((if b then m else k) w)
if-Held true m k w hm hk = hm
if-Held false m k w hm hk = hk
