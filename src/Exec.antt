-- ===== src/Exec.antt =====
-- Methods of an object that holds state and may raise. What was written before the exception stays
-- written, so that the state comes back beside the error.
use llmcut.Prelude.{Bool, true, false, ◌≡◌, refl, sym, ap, ◌∙◌, arith}
use llmcut.Result.{Error, Result, ok, err, ok_inj}

abbrev pub Exec : Type 0 → Type 0 → Type 0
Exec S A = S → Result A × S

module _ {S A B : Type 0} where
  abbrev pub proceed : Result A × S → (A → Exec S B) → Result B × S
  proceed (ok a, s) f = f a s
  proceed (err e, s) f = (err e, s)

  infixl 5 ◌>>=◌ ◌>>◌
  abbrev pub ◌>>=◌ : Exec S A → (A → Exec S B) → Exec S B
  ◌>>=◌ m f s = proceed (m s) f

  abbrev pub ◌>>◌ : Exec S A → Exec S B → Exec S B
  m >> k = m >>= λ _. k

module _ {S A : Type 0} where
  abbrev pub pure : A → Exec S A
  pure a s = (ok a, s)

  abbrev pub raise : Error → Exec S A
  raise e s = (err e, s)

  -- a pure part that may raise
  abbrev pub lift : Result A → Exec S A
  lift r s = (r, s)

  abbrev pub gets : (S → A) → Exec S A
  gets f s = (ok (f s), s)

module _ {S : Type 0} where
  abbrev pub modify : (S → S) → Exec S (Unit {0})
  modify f s = (ok tt, f s)

  abbrev pub raise_if : Bool → Error → Exec S (Unit {0})
  raise_if true e s = (err e, s)
  raise_if false e s = (ok tt, s)

-- What a bind that returned has done: its first part returned, and the rest ran from there.
module _ {S A B : Type 0} where
  proceed-eq-ok :
      (p : Result A × S) (f : A → Exec S B) {b : B}
      → (proceed p f).0 ≡ ok b
      → (a : A) × (p.0 ≡ ok a) × (proceed p f ≡ f a p.1)
  proceed-eq-ok (ok a, s) f h = (a, refl, refl)
  proceed-eq-ok (err e, s) f h = ground arith

  pub >>=-eq-ok :
      (m : Exec S A) (f : A → Exec S B) (s : S) {b : B}
      → ((m >>= f) s).0 ≡ ok b
      → (a : A) × ((m s).0 ≡ ok a) × ((f a (m s).1).0 ≡ ok b) × ((m >>= f) s ≡ f a (m s).1)
  >>=-eq-ok m f s h =
      let (a, e, p) = proceed-eq-ok (m s) f h in (a, e, ap (λ x. x.0) (sym p) ∙ h, p)

  proceed-ok : (p : Result A × S) (f : A → Exec S B) {a : A} → p.0 ≡ ok a → proceed p f ≡ f a p.1
  proceed-ok (ok b, s) f h = ap (λ c. f c s) (ok_inj h)
  proceed-ok (err e, s) f h = ground arith

  -- A bind whose first part returns goes on with its value.
  pub >>=-ok :
      (m : Exec S A) (f : A → Exec S B) (s : S) {a : A} → (m s).0 ≡ ok a → (m >>= f) s ≡ f a (m s).1
  >>=-ok m f s h = proceed-ok (m s) f h

module _ {S : Type 0} where
  -- A guard that lets pass does nothing.
  pub raise_if-eq-ok :
      (b : Bool) (e : Error) (s : S) {x : Unit {0}}
      → (raise_if b e s).0 ≡ ok x
      → (b ≡ false) × (raise_if b e s ≡ (ok tt, s))
  raise_if-eq-ok true e s h = ground arith
  raise_if-eq-ok false e s h = (refl, refl)

  -- What follows a guard has run from the state before it.
  pub guard-eq-ok :
      {A : Type 0} (b : Bool) (e : Error) (k : Unit {0} → Exec S A) (s : S) {a : A}
      → ((raise_if b e >>= k) s).0 ≡ ok a
      → (b ≡ false) × ((raise_if b e >>= k) s ≡ k tt s)
  guard-eq-ok true e k s h = ground arith
  guard-eq-ok false e k s h = (refl, refl)
