-- ===== src/Prelude/Members.antt =====
-- Membership in a list, and what filtering makes of it.
use Prim.Native.Nat.{◌+◌}
use mathlib.Core.Path.{◌≡◌, sym, ap, ◌∙◌, subst}
use mathlib.Core.Logic.{◌⊎◌, ◌↔◌, inl, inr}
use mathlib.Core.Bool.{Bool, true, not}
use mathlib.Core.List.{List, [], ◌∷◌, ◌++◌}
use native.Mathlib.Omega.{arith}
use llmcut.Prelude.Tests.{if◌then◌else◌, Bool-cases}
use llmcut.Prelude.Lists.{keep_if, length}

module _ {A : Type 0} where
  abbrev pub In : A → List A → Type 0
  In a [] = ⊥
  In a (x ∷ xs) = (a ≡ x) ⊎ In a xs

  In-cases :
      (a : A) (x : A) (xs : List A) (P : Type 0) → In a (x ∷ xs) → (a ≡ x → P) → (In a xs → P) → P
  In-cases a x xs P (inl e) f g = f e
  In-cases a x xs P (inr e) f g = g e

  pub In-append_left : (a : A) (xs ys : List A) → In a xs → In a (xs ++ ys)
  In-append_left a [] ys h = elim h [ ]
  In-append_left a (x ∷ xs) ys (inl e) = inl e
  In-append_left a (x ∷ xs) ys (inr e) = inr (In-append_left a xs ys e)

  pub In-append_right : (a : A) (xs ys : List A) → In a ys → In a (xs ++ ys)
  In-append_right a [] ys h = h
  In-append_right a (x ∷ xs) ys h = inr (In-append_right a xs ys h)

  pub In-append_cases : (a : A) (xs ys : List A) → In a (xs ++ ys) → In a xs ⊎ In a ys
  In-append_cases a [] ys h = inr h
  In-append_cases a (x ∷ xs) ys (inl e) = inl (inl e)
  In-append_cases a (x ∷ xs) ys (inr h) = elim (In-append_cases a xs ys h) [
    | inl k ↦ inl (inr k)
    | inr k ↦ inr k
  ]

  kept : (p : A → Bool) (a : A) (xs : List A) → In a xs → p a ≡ true → In a (keep_if p xs)
  kept p a [] h q = elim h [ ]
  kept p a (x ∷ xs) (inl e) h = rw (ap p (sym e) ∙ h) (inl e)
  kept p a (x ∷ xs) (inr e) h = elim (Bool-cases (p x)) [
    | inl b ↦ rw b (inr (kept p a xs e h))
    | inr b ↦ rw b (kept p a xs e h)
  ]

  found : (p : A → Bool) (a : A) (xs : List A) → In a (keep_if p xs) → In a xs × (p a ≡ true)
  found p a [] h = elim h [ ]
  found p a (x ∷ xs) h = elim (Bool-cases (p x)) [
    | inl b ↦
        In-cases a x (keep_if p xs) (In a (x ∷ xs) × (p a ≡ true))
          (subst (λ t. In a (if t then x ∷ keep_if p xs else keep_if p xs)) b h)
          (λ e. (inl e, ap p e ∙ b)) (λ k. let (i, q) = found p a xs k in (inr i, q))
    | inr b ↦
        let (i, q) =
          found p a xs (subst (λ t. In a (if t then x ∷ keep_if p xs else keep_if p xs)) b h) in
        (inr i, q)
  ]

  -- An element stands in a filtered list exactly where it stands in the list and passes the test.
  pub In-keep_if :
      (p : A → Bool) (a : A) (xs : List A) → In a (keep_if p xs) ↔ (In a xs × (p a ≡ true))
  In-keep_if p a xs = (found p a xs, λ h. kept p a xs h.0 h.1)

  -- What passes and what fails a test are together as many as there are.
  pub keep_if_complement :
      (p : A → Bool) (xs : List A)
      → length (keep_if p xs) + length (keep_if (λ x. not (p x)) xs) ≡ length xs
  keep_if_complement p [] = omega arith
  keep_if_complement p (x ∷ xs) = ground (arith, keep_if_complement p xs)
