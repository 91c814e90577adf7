-- ===== src/Antie/Carrier/Wire/Told.antt =====
-- What the sessions of antie/src/carrier.rs have sent where they succeed: rules for each step of one.
use axiom_carriers.Base.{
  Bool, true, false, List, [], ◌∷◌, ◌++◌, ◌≡◌, refl, sym, ap, ◌∙◌, inl, inr, All, append_assoc,
  append-nil, if◌then◌else◌,
}
use axiom_carriers.Base.Result.{Result, ok, err, Result-cases}
use axiom_carriers.Disk.{Bytes}
use axiom_carriers.Antie.Carrier.Wire.{Wire, Net, ◌>>=◌, pure, Fail, write_all, written}
use axiom_carriers.Antie.Carrier.Wire.Laws.{bind-ok, bind-err}
use axiom_carriers.Antie.Carrier.Wire.Script.{Sends}

-- A step that, where it succeeds, has made just these writes.
abbrev Wrote : {A : Type 0} → Wire → List Bytes → Result Fail A × Wire → Type 0
Wrote w bs (ok a, w') = w'.sent ≡ w.sent ++ bs
Wrote w bs (err e, w') = Unit

abbrev pub Scripted : List Bytes → {A : Type 0} → Net A → Type 0
Scripted bs m = (w : Wire) → Wrote w bs (m w)

Wrote-then :
    {A : Type 0} (w w' : Wire) (bs cs : List Bytes) (r : Result Fail A × Wire)
    → w'.sent ≡ w.sent ++ bs
    → Wrote w' cs r
    → Wrote w (bs ++ cs) r
Wrote-then w w' bs cs (ok a, w'') e h = h ∙ ap (λ s. s ++ cs) e ∙ append_assoc w.sent bs cs
Wrote-then w w' bs cs (err x, w'') e h = tt

sent_of_ok :
    {A : Type 0} (w : Wire) (bs : List Bytes) (r : Result Fail A × Wire) (a : A)
    → r.0 ≡ ok a
    → Wrote w bs r
    → r.1.sent ≡ w.sent ++ bs
sent_of_ok w bs (ok _, w') a e h = h
sent_of_ok w bs (err x, w') a e h = cc

pub >>=-Scripted :
    {A B : Type 0} (bs cs : List Bytes) (m : Net A) (f : A → Net B)
    → Scripted bs m
    → ((a : A) → Scripted cs (f a))
    → Scripted (bs ++ cs) (m >>= f)
>>=-Scripted bs cs m f hm hf w = elim (Result-cases (m w).0) [
  | inl (a, e) ↦
      rw (bind-ok m f w a e)
        (Wrote-then w (m w).1 bs cs (f a (m w).1) (sent_of_ok w bs (m w) a e (hm w)) (hf a (m w).1))
  | inr (x, e) ↦ rw (bind-err m f w x e) tt
]

written-Wrote : (ts : List Bool) (b : Bytes) (w : Wire) → Wrote w (b ∷ []) (written ts b w)
written-Wrote [] b w = refl
written-Wrote (true ∷ ts) b w = refl
written-Wrote (false ∷ ts) b w = tt

pub write_all-Scripted : (b : Bytes) → Scripted (b ∷ []) (write_all b)
unfolding write_all
write_all-Scripted b w = written-Wrote w.writes b w

nothing_new :
    {A : Type 0} (w : Wire) (new : List Bytes) (r : Result Fail A × Wire)
    → r.1.sent ≡ w.sent ++ new
    → All (λ _. ⊥) new
    → Wrote w [] r
nothing_new w [] (ok a, w') e h = e
nothing_new w [] (err x, w') e h = tt
nothing_new w (b ∷ bs) r e h = absurd h.0

-- A step with no write that it could make.
pub silent-Scripted : {A : Type 0} (m : Net A) → Sends (λ _. ⊥) m → Scripted [] m
silent-Scripted m h w = let (new, e, p) = h w in nothing_new w new (m w) e p

pub pure-Scripted : {A : Type 0} (a : A) → Scripted [] (pure a)
pure-Scripted a w = sym (append-nil w.sent)

pub if-Scripted :
    {A : Type 0} (b : Bool) (bs cs : List Bytes) (m k : Net A)
    → Scripted bs m
    → Scripted cs k
    → Scripted (if b then bs else cs) (if b then m else k)
if-Scripted true bs cs m k hm hk = hm
if-Scripted false bs cs m k hm hk = hk
