-- ===== src/Antie/Carrier/Wire/Script.antt =====
-- What the sessions of antie/src/carrier.rs send, and that they end: rules for each step of one.
use axiom_carriers.Base.{
  if◌then◌else◌, ℕ, zero, suc, Bool, true, false, List, [], ◌∷◌, ◌++◌, ◌≡◌, refl, sym, ap, ◌∙◌, ◌≢◌,
  All, All-append, append_assoc, append-nil, inl, inr,
}
use axiom_carriers.Base.Result.{Result, ok, err, Result-cases}
use axiom_carriers.Disk.{Bytes}
use axiom_carriers.Antie.Carrier.Wire.{
  Wire, Net, ◌>>=◌, pure, fail, ignore, with_reader, Fail, exhausted, read_line, read_as, Line,
  line, cut, next_line, write_all, written,
}
use axiom_carriers.Antie.Carrier.Wire.Laws.{bind-ok, bind-err}
use axiom_carriers.Antie.Carrier.Wire.Loop.{
  Next, again, done, Ends, after, rounds, loop, size, Shrinks, read_line-Shrinks,
}

-- A step that ends on every connection.
abbrev pub Total : {A : Type 0} → Net A → Type 0
Total m = (w : Wire) → Ends (m w).0

module _ {A B : Type 0} where
  pub >>=-Total : (m : Net A) (f : A → Net B) → Total m → ((a : A) → Total (f a)) → Total (m >>= f)
  >>=-Total m f hm hf w = elim (Result-cases (m w).0) [
    | inl (a, e) ↦ rw (bind-ok m f w a e) (hf a (m w).1)
    | inr (x, e) ↦ rw (bind-err m f w x e) (rw e at (hm w))
  ]

Ends-of : {A : Type 0} (w : Wire) (r : Result Fail A × Wire) → Shrinks w r → Ends r.0
Ends-of w (ok a, w') h = tt
Ends-of w (err e, w') h = h

pub read_line-Total : Total read_line
read_line-Total w = Ends-of w (read_line w) (read_line-Shrinks w)

written-Ends : (ts : List Bool) (b : Bytes) (w : Wire) → Ends (written ts b w).0
written-Ends [] b w = tt
written-Ends (true ∷ ts) b w = tt
written-Ends (false ∷ ts) b w = λ e. cc

pub write_all-Total : (b : Bytes) → Total (write_all b)
unfolding write_all
write_all-Total b w = written-Ends w.writes b w

-- A step whose writes all satisfy `P`.
abbrev pub Sends : (Bytes → Type 0) → {A : Type 0} → Net A → Type 0
Sends P m = (w : Wire) → (new : List Bytes) × ((m w).1.sent ≡ w.sent ++ new) × All P new

module _ (P : Bytes → Type 0) {A B : Type 0} where
  pub >>=-Sends :
      (m : Net A) (f : A → Net B) → Sends P m → ((a : A) → Sends P (f a)) → Sends P (m >>= f)
  >>=-Sends m f hm hf w =
      let (new, e, p) = hm w in
      elim (Result-cases (m w).0) [
        | inl (a, h) ↦
            let (later, e', p') = hf a (m w).1 in
            rw (bind-ok m f w a h) (
              new ++ later,
              e' ∙ ap (λ s. s ++ later) e ∙ append_assoc w.sent new later,
              All-append P new later p p',
            )
        | inr (x, h) ↦ rw (bind-err m f w x h) (new, e, p)
      ]

  after-Sends :
      (more : A → Net B) (sent new : List Bytes) (r : Result Fail (Next A B) × Wire)
      → ((s : A) → Sends P (more s))
      → r.1.sent ≡ sent ++ new
      → All P new
      → (all : List Bytes) × ((after more r.0 r.1).1.sent ≡ sent ++ all) × All P all
  after-Sends more sent new (err x, w) h e p = (new, e, p)
  after-Sends more sent new (ok (done a), w) h e p = (new, e, p)
  after-Sends more sent new (ok (again s), w) h e p =
      let (later, e', p') = h s w in
      (
        new ++ later,
        e' ∙ ap (λ t. t ++ later) e ∙ append_assoc sent new later,
        All-append P new later p p',
      )

  rounds-Sends :
      (body : A → Net (Next A B)) (n : ℕ) (s : A)
      → ((t : A) → Sends P (body t))
      → Sends P (rounds body n s)
  unfolding rounds
  rounds-Sends body zero s h w = ([], sym (append-nil w.sent), tt)
  rounds-Sends body (suc n) s h w =
      let (new, e, p) = h s w in
      after-Sends (rounds body n) w.sent new (body s w) (λ t. rounds-Sends body n t h) e p

  pub loop-Sends :
      (body : A → Net (Next A B)) (s : A) → ((t : A) → Sends P (body t)) → Sends P (loop body s)
  unfolding loop
  loop-Sends body s h w = rounds-Sends body (suc (size w)) s h w

read_as_sent : (w : Wire) (r : Line) → (read_as r w).1.sent ≡ w.sent
read_as_sent w (line l b es) = refl
read_as_sent w (cut e es) = refl

pub read_line-Sends : (P : Bytes → Type 0) → Sends P read_line
unfolding read_line
read_line-Sends P w =
    ([], read_as_sent w (next_line w.buffer w.incoming) ∙ sym (append-nil w.sent), tt)

written-Sends :
    (P : Bytes → Type 0) (ts : List Bool) (b : Bytes) (w : Wire)
    → P b
    → (new : List Bytes) × ((written ts b w).1.sent ≡ w.sent ++ new) × All P new
written-Sends P [] b w p = (b ∷ [], refl, (p, tt))
written-Sends P (true ∷ ts) b w p = (b ∷ [], refl, (p, tt))
written-Sends P (false ∷ ts) b w p = ([], sym (append-nil w.sent), tt)

pub write_all-Sends : (P : Bytes → Type 0) (b : Bytes) → P b → Sends P (write_all b)
unfolding write_all
write_all-Sends P b p w = written-Sends P w.writes b w p

module _ (P : Bytes → Type 0) {A : Type 0} where
  pub pure-Sends : (a : A) → Sends P (pure a)
  pure-Sends a w = ([], sym (append-nil w.sent), tt)

  pub reader-Sends : (m : Net A) → Sends P m → Sends P (with_reader m)
  reader-Sends m h w = h (record w { buffer = [] })

  pub ignore-Sends : (m : Net A) → Sends P m → Sends P (ignore m)
  ignore-Sends m h w = h w

  pub if-Sends : (b : Bool) (m k : Net A) → Sends P m → Sends P k → Sends P (if b then m else k)
  if-Sends true m k hm hk = hm
  if-Sends false m k hm hk = hk

pub fail-Sends : (P : Bytes → Type 0) (A : Type 0) (e : Fail) → Sends P (fail {A = A} e)
fail-Sends P A e w = ([], sym (append-nil w.sent), tt)

pub pure-Total : {A : Type 0} (a : A) → Total (pure a)
pure-Total a w = tt

pub reader-Total : {A : Type 0} (m : Net A) → Total m → Total (with_reader m)
reader-Total m h w = h (record w { buffer = [] })

pub fail-Total : (A : Type 0) (e : Fail) → e ≢ exhausted → Total (fail {A = A} e)
fail-Total A e h w = h

pub ignore-Total : {A : Type 0} (m : Net A) → Total (ignore m)
ignore-Total m w = tt

pub if-Total :
    {A : Type 0} (b : Bool) (m k : Net A) → Total m → Total k → Total (if b then m else k)
if-Total true m k hm hk = hm
if-Total false m k hm hk = hk
