-- ===== src/Antie/Carrier/Wire/Laws.antt =====
-- antie/src/carrier.rs: reading does not depend on how the bytes arrive.
use axiom_carriers.Base.{
  ℕ, true, false, none, some, List, [], ◌∷◌, ◌++◌, ◌≡◌, sym, ap, ◌∙◌, inl, inr, arith, append_assoc,
  append-nil, Option-cases,
}
use axiom_carriers.Base.Text.{
  Text, has, has-append, split_once, split_once-append, split_once-eq-some, split_once-eq-none,
}
use axiom_carriers.Base.Result.{ok, err}
use axiom_carriers.Disk.{Bytes}
use axiom_carriers.Antie.Carrier.Wire.{
  write_all, written, Net, ◌>>=◌, Fail, Event, received, broken, silent, Wire, Line, line, cut, lf,
  pull, next_line, read_as, read_line,
}
use axiom_carriers.Antie.Carrier.Wire.Utf8.{decode}

-- What arrives before the stream ends, fails or falls silent.
abbrev pub stream : List Event → Bytes
stream [] = []
stream (broken ∷ es) = []
stream (silent ∷ es) = []
stream (received [] ∷ es) = []
stream (received (x ∷ xs) ∷ es) = (x ∷ xs) ++ stream es

-- What a reader is still to see.
abbrev pub pending : Wire → Bytes
pending w = w.buffer ++ stream w.incoming

-- A text is cut at its first separator in one way.
cut_unique :
    (a b l r : Text)
    → a ++ lf ∷ b ≡ l ++ lf ∷ r
    → has lf a ≡ false
    → has lf l ≡ false
    → (a ≡ l) × (b ≡ r)
cut_unique a b l r e ha hl =
    ground (arith, split_once-append lf a b ha, split_once-append lf l r hl, ap (split_once lf) e)

no_line : (l r : Text) → has lf (l ++ lf ∷ r) ≡ true
unfolding has
no_line l r = rw (has-append lf l (lf ∷ r)) (ground arith)

abbrev Cuts : Bytes → Bytes → Line → Type 0
Cuts l rest (line l' b es) = (l' ≡ l ++ lf ∷ []) × (b ++ stream es ≡ rest)
Cuts l rest (cut e es) = ⊥

module _ (acc : Bytes) (x : ℕ) (xs : Bytes) (es : List Event) where
  pub pull-more :
      split_once lf (acc ++ (x ∷ xs)) ≡ none
      → pull acc (received (x ∷ xs) ∷ es) ≡ pull (acc ++ (x ∷ xs)) es
  unfolding pull
  pull-more n = ground (arith, n)

  pub pull_done :
      (a b : Bytes)
      → split_once lf (acc ++ (x ∷ xs)) ≡ some (a, b)
      → pull acc (received (x ∷ xs) ∷ es) ≡ line (a ++ lf ∷ []) b es
  unfolding pull
  pull_done a b s = ground (arith, s)

module _ (buf : Bytes) (es : List Event) where
  pub next_line-pull : split_once lf buf ≡ none → next_line buf es ≡ pull buf es
  unfolding next_line
  next_line-pull n = ground (arith, n)

  pub next_line_done :
      (a b : Bytes) → split_once lf buf ≡ some (a, b) → next_line buf es ≡ line (a ++ lf ∷ []) b es
  unfolding next_line
  next_line_done a b s = ground (arith, s)

module _ (l rest : Bytes) (whole : has lf l ≡ false) where
  cut_at :
      (a b acc : Bytes) (es : List Event)
      → split_once lf acc ≡ some (a, b)
      → acc ++ stream es ≡ l ++ lf ∷ rest
      → (a ++ lf ∷ [] ≡ l ++ lf ∷ []) × (b ++ stream es ≡ rest)
  cut_at a b acc es s e =
      let (acc_is, ha) = split_once-eq-some lf acc a b s in
      let (same, behind) =
        cut_unique a (b ++ stream es) l rest
          (sym (append_assoc a (lf ∷ b) (stream es)) ∙ ap (λ t. t ++ stream es) (sym acc_is) ∙ e) ha
          whole in
      (ap (λ t. t ++ lf ∷ []) same, behind)

  none_left : (acc : Bytes) → has lf acc ≡ false → acc ++ [] ≡ l ++ lf ∷ rest → ⊥
  none_left acc n e = cc (ap (has lf) (sym (append-nil acc) ∙ e), n, no_line l rest)

  pull-Cuts :
      (acc : Bytes) (es : List Event)
      → has lf acc ≡ false
      → acc ++ stream es ≡ l ++ lf ∷ rest
      → Cuts l rest (pull acc es)
  unfolding pull
  pull-Cuts acc [] n e = absurd (none_left acc n e)
  pull-Cuts acc (broken ∷ es) n e = absurd (none_left acc n e)
  pull-Cuts acc (silent ∷ es) n e = absurd (none_left acc n e)
  pull-Cuts acc (received [] ∷ es) n e = absurd (none_left acc n e)
  pull-Cuts acc (received (x ∷ xs) ∷ es) n e =
      let e' = append_assoc acc (x ∷ xs) (stream es) ∙ e in
      elim (Option-cases (split_once lf (acc ++ (x ∷ xs)))) [
        | inl none_yet ↦
            rw (pull-more acc x xs es none_yet)
              (pull-Cuts (acc ++ (x ∷ xs)) es (split_once-eq-none lf (acc ++ (x ∷ xs)) none_yet) e')
        | inr ((a, b), s) ↦ rw (pull_done acc x xs es a b s) (cut_at a b (acc ++ (x ∷ xs)) es s e')
      ]

  next_line-Cuts :
      (buf : Bytes) (es : List Event)
      → buf ++ stream es ≡ l ++ lf ∷ rest
      → Cuts l rest (next_line buf es)
  next_line-Cuts buf es e = elim (Option-cases (split_once lf buf)) [
    | inl none_yet ↦
        rw (next_line-pull buf es none_yet)
          (pull-Cuts buf es (split_once-eq-none lf buf none_yet) e)
    | inr ((a, b), s) ↦ rw (next_line_done buf es a b s) (cut_at a b buf es s e)
  ]

-- What a step leaves behind: `rest` is still to be seen, and nothing was sent or counted.
abbrev pub Leaves : Wire → Bytes → Wire → Type 0
Leaves w rest w' =
    (pending w' ≡ rest) × (w'.sent ≡ w.sent) × (w'.writes ≡ w.writes) × (w'.eofs ≡ w.eofs)

module _ (l rest : Bytes) (t : Text) where
  read_as_pending :
      (w : Wire) (r : Line)
      → decode (l ++ lf ∷ []) ≡ some t
      → Cuts l rest r
      → ((read_as r w).0 ≡ ok (l ++ lf ∷ [], t)) × Leaves w rest (read_as r w).1
  read_as_pending w (line l' b es) d (same, left) = ground (arith, same, d, left)
  read_as_pending w (cut _ _) d x = elim x [ ]

  -- A line that arrives is read, however the bytes before, in and behind it are spread over the reads;
  -- what is behind it is read next.
  pub read_line-pending :
      (w : Wire)
      → has lf l ≡ false
      → decode (l ++ lf ∷ []) ≡ some t
      → pending w ≡ l ++ lf ∷ rest
      → ((read_line w).0 ≡ ok (l ++ lf ∷ [], t)) × Leaves w rest (read_line w).1
  unfolding read_line
  read_line-pending w whole d e =
      read_as_pending w (next_line w.buffer w.incoming) d
        (next_line-Cuts l rest whole w.buffer w.incoming e)

pub Leaves-trans :
    (w w' w'' : Wire) (rest rest' : Bytes)
    → Leaves w rest w'
    → Leaves w' rest' w''
    → Leaves w rest' w''
Leaves-trans w w' w'' rest rest' (_, a, b, c) (d, e, f, g) = (d, e ∙ a, f ∙ b, g ∙ c)

module _ {A B : Type 0} (m : Net A) (f : A → Net B) (w : Wire) where
  pub bind-ok : (a : A) → (m w).0 ≡ ok a → (m >>= f) w ≡ f a (m w).1
  unfolding ◌>>=◌
  bind-ok a e = λ i. elim (e i) [ ok b ↦ f b (m w).1 | err x ↦ (err x, (m w).1) ]

  pub bind-err : (x : Fail) → (m w).0 ≡ err x → (m >>= f) w ≡ (err x, (m w).1)
  unfolding ◌>>=◌
  bind-err x e = λ i. elim (e i) [ ok b ↦ f b (m w).1 | err y ↦ (err y, (m w).1) ]

pub write_works :
    (b : Bytes) (w : Wire)
    → w.writes ≡ []
    → write_all b w ≡ (ok tt, record w { sent = w.sent ++ (b ∷ []) })
unfolding write_all
write_works b w works = λ i. written (works i) b w
