-- ===== src/Antie/Carrier/Wire/Unroll.antt =====
-- A read loop whose rounds make progress does what its rounds do one after another, and the number of
-- rounds that it is given does not show.
use axiom_carriers.Base.{ℕ, zero, suc, ◌<◌, ◌≡◌, refl, ◌∙◌, arith}
use axiom_carriers.Base.Result.{Result, ok, err}
use axiom_carriers.Antie.Carrier.Wire.{Wire, Net, Fail}
use axiom_carriers.Antie.Carrier.Wire.Loop.{
  Next, again, done, after, rounds, rounds-again, rounds-done, loop, size, Progress,
}

module _ {S A : Type 0} (body : S → Net (Next S A))
    (step : (s : S) (w : Wire) → Progress w (body s w)) where
  after_agree :
      (n m : ℕ) (w : Wire) (r : Result Fail (Next S A) × Wire)
      → ((s : S) (w' : Wire) → size w' < n → size w' < m → rounds body n s w' ≡ rounds body m s w')
      → size w < suc n
      → size w < suc m
      → Progress w r
      → after (rounds body n) r.0 r.1 ≡ after (rounds body m) r.0 r.1
  after_agree n m w (err e, w') same h k p = refl
  after_agree n m w (ok (done a), w') same h k p = refl
  after_agree n m w (ok (again s), w') same h k p = same s w' (omega arith) (omega arith)

  rounds_agree :
      (n m : ℕ) (s : S) (w : Wire) → size w < n → size w < m → rounds body n s w ≡ rounds body m s w
  unfolding rounds
  rounds_agree zero m s w h k = elim h [ ]
  rounds_agree (suc n) zero s w h k = elim k [ ]
  rounds_agree (suc n) (suc m) s w h k =
      after_agree n m w (body s w) (rounds_agree n m) h k (step s w)

  pub loop-again :
      (s s' : S) (w w' : Wire) → body s w ≡ (ok (again s'), w') → loop body s w ≡ loop body s' w'
  unfolding loop
  loop-again s s' w w' e =
      let less = rw e at (step s w) in
      rounds-again body (size w) s w w' s' e
      ∙ rounds_agree (size w) (suc (size w')) s' w' less (omega arith)

  pub loop-done :
      (s : S) (a : A) (w w' : Wire) → body s w ≡ (ok (done a), w') → loop body s w ≡ (ok a, w')
  unfolding loop
  loop-done s a w w' e = rounds-done body (size w) s w w' a e
