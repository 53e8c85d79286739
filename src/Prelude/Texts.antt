-- ===== src/Prelude/Texts.antt =====
-- Texts compared whole, sets of texts as lists, and dictionaries keyed by texts.
use Prim.Native.String.{String}
use mathlib.Core.Path.{◌≡◌, refl}
use mathlib.Core.Bool.{Bool, true, false, ◌||◌}
use mathlib.Core.Option.{Option, none, some}
use mathlib.Core.List.{List, [], ◌∷◌, ◌++◌}
use native.Mathlib.Omega.{arith}
use text.Mathlib.Text
use text.Mathlib.TextEquality.{eq_iff}
use text.Mathlib.TextPositions.{eq_refl}
use llmcut.Prelude.Tests.{if◌then◌else◌}

infix 50 ◌≟◌
abbrev pub ◌≟◌ : String → String → Bool
s ≟ t = Text.◌==◌ s t

-- `bool(s)` is the negation
abbrev pub is_empty : String → Bool
is_empty s = s ≟ ""

-- `s in xs`
abbrev pub elem : String → List String → Bool
elem s [] = false
elem s (x ∷ xs) = (s ≟ x) || elem s xs

-- `set.add`, on a list without repetitions
abbrev pub add : String → List String → List String
add s xs = if elem s xs then xs else xs ++ s ∷ []

-- `set.discard`
abbrev pub discard : String → List String → List String
discard s [] = []
discard s (x ∷ xs) = let rest = discard s xs in if s ≟ x then rest else x ∷ rest

module _ {ℓ} {V : Type ℓ} where
  -- `d.get(k)`
  abbrev pub lookup : String → List (String × V) → Option V
  lookup k [] = none
  lookup k ((j, v) ∷ d) = if k ≟ j then some v else lookup k d

  -- `d[k] = v`
  abbrev pub insert : String → V → List (String × V) → List (String × V)
  insert k v [] = (k, v) ∷ []
  insert k v ((j, u) ∷ d) = if k ≟ j then (j, v) ∷ d else (j, u) ∷ insert k v d

  -- `d.pop(k, None)`
  abbrev pub erase : String → List (String × V) → List (String × V)
  erase k [] = []
  erase k ((j, v) ∷ d) = let rest = erase k d in if k ≟ j then rest else (j, v) ∷ rest

  pub lookup-insert :
      (j k : String) (v : V) (d : List (String × V))
      → lookup j (insert k v d) ≡ (if j ≟ k then some v else lookup j d)
  lookup-insert j k v [] = refl
  lookup-insert j k v ((i, u) ∷ d) =
      ground (arith, eq_iff j k, eq_iff k i, eq_iff j i, lookup-insert j k v d)

pub elem-append : (s : String) (xs ys : List String) → elem s (xs ++ ys) ≡ (elem s xs || elem s ys)
elem-append s [] ys = refl
elem-append s (x ∷ xs) ys = ground (arith, elem-append s xs ys)

pub elem-append_self : (s : String) (xs : List String) → elem s (xs ++ s ∷ []) ≡ true
elem-append_self s xs = ground (arith, elem-append s xs (s ∷ []), eq_refl s)

pub elem-add : (s t : String) (xs : List String) → elem s xs ≡ true → elem s (add t xs) ≡ true
elem-add s t xs h = ground (arith, elem-append s xs (t ∷ []), h)

pub elem-add_self : (s : String) (xs : List String) → elem s (add s xs) ≡ true
elem-add_self s xs = ground (arith, elem-append_self s xs)
