-- ===== src/Result.antt =====
-- errors.py: the exceptions as values, with the built-in ones that the code raises or catches.
-- A message keeps its fixed text; the values that an f-string puts into it are left out.
use llmcut.Prelude.{
  String, Bool, true, false, Option, none, some, List, [], ◌∷◌, ◌≡◌, refl, ap, arith,
}

pub data Error : Type 0 where
  integrity_error configuration_error unsupported_mode protocol_error : String → Error
  retrieval_error execution_error : String → Error
  key_error value_error type_error decode_error database_error pattern_error attribute_error :
      String → Error
  cancelled : Error

pub data Result {ℓ} (A : Type ℓ) : Type ℓ where
  err : Error → Result A
  ok : A → Result A

-- the rest of a method that may have raised
infixl 5 ◌>>=◌ ◌>>◌
abbrev pub ◌>>=◌ {ℓ κ} : {A : Type ℓ} {B : Type κ} → Result A → (A → Result B) → Result B
err failure >>= rest = err failure
ok value >>= rest = rest value

-- `if test: raise error`
abbrev pub raise_if : Bool → Error → Result (Unit {0})
raise_if true e = err e
raise_if false e = ok tt

-- a check, and what follows where it passes
abbrev pub ◌>>◌ {ℓ} : {B : Type ℓ} → Result (Unit {0}) → Result B → Result B
check >> next = check >>= λ _. next

abbrev pub or_raise {ℓ} : {A : Type ℓ} → Option A → Error → Result A
or_raise none e = err e
or_raise (some a) e = ok a

abbrev pub is_ok {ℓ} : {A : Type ℓ} → Result A → Bool
is_ok (ok _) = true
is_ok (err _) = false

module _ {ℓ} {A : Type ℓ} where
  -- a loop whose body may raise
  abbrev pub for_each : (A → Result (Unit {0})) → List A → Result (Unit {0})
  for_each f [] = ok tt
  for_each f (x ∷ xs) = f x >> for_each f xs

-- What a bind that succeeded has done.
module _ {ℓ κ} {A : Type ℓ} {B : Type κ} where
  pub >>=-eq-ok :
      (first : Result A) (rest : A → Result B) {out : B}
      → (first >>= rest) ≡ ok out
      → (value : A) × (first ≡ ok value) × (rest value ≡ ok out)
  >>=-eq-ok (err failure) rest returned = ground arith
  >>=-eq-ok (ok value) rest returned = (value, refl, returned)

pub ok_inj {ℓ} : {A : Type ℓ} {a b : A} → ok a ≡ ok b → a ≡ b
ok_inj {a} h = ap (λ r. elim r [ ok x ↦ x | err _ ↦ a ]) h
