-- ===== src/Json.antt =====
-- Values of JSON, which are also the Python values that the program keeps in its dictionaries.
-- A dictionary is the list of its entries; the key of each entry stands once.
pub mod Equality
pub mod Values
pub mod Lookups
pub mod Integers
pub mod Sorted
use llmcut.Prelude.{
  ℕ, String, Bool, true, false, not, List, [], ◌∷◌, Option, none, some, ◌≡◌, refl, ap,
  if◌then◌else◌, ◌≟◌, elem, is_empty, ◌==◌,
}

-- `negsuc n` is -(n + 1)
pub data ℤ : Type 0 where
  pos : ℕ → ℤ
  negsuc : ℕ → ℤ

-- `real` is a number with a fraction or an exponent, by its text.
mutual
  pub data Json : Type 0 where
    null : Json
    boolean : Bool → Json
    int : ℤ → Json
    real : String → Json
    str : String → Json
    arr : Items → Json
    obj : Fields → Json

  pub data Items : Type 0 where
    nil : Items
    cons : Json → Items → Items

  pub data Fields : Type 0 where
    end : Fields
    field : String → Json → Fields → Fields

-- `d.get(key)`
abbrev pub get : String → Fields → Option Json
get k end = none
get k (field j v d) = if k ≟ j then some v else get k d

-- `d[key] = value`
abbrev pub set : String → Json → Fields → Fields
set k v end = field k v end
set k v (field j u d) = if k ≟ j then field j v d else field j u (set k v d)

-- `d.pop(key, None)`
abbrev pub remove : String → Fields → Fields
remove k end = end
remove k (field j v d) = let rest = remove k d in if k ≟ j then rest else field j v rest

-- `{key: value for key, value in d.items() if key not in keys}`
abbrev pub without : List String → Fields → Fields
without keys end = end
without keys (field j v d) =
    let rest = without keys d in if elem j keys then rest else field j v rest

abbrev pub keys : Fields → List String
keys end = []
keys (field j v d) = j ∷ keys d

abbrev pub items : Items → List Json
items nil = []
items (cons v vs) = v ∷ items vs

abbrev pub of_list : List Json → Items
of_list [] = nil
of_list (v ∷ vs) = cons v (of_list vs)

-- `d.get(key) is True`
abbrev pub is_true : Option Json → Bool
is_true (some (boolean b)) = b
is_true _ = false

-- `d.get(key) is False`
abbrev pub is_false : Option Json → Bool
is_false (some (boolean b)) = not b
is_false _ = false

-- `d.get(key) == text`
abbrev pub is_text : String → Option Json → Bool
is_text t (some (str s)) = s ≟ t
is_text t _ = false

-- `bool(value)`; the text of a `real` that is zero is not normalised, and counts as true here.
abbrev pub truthy : Json → Bool
truthy null = false
truthy (boolean b) = b
truthy (int (pos n)) = not (n == 0)
truthy (int (negsuc n)) = true
truthy (real t) = true
truthy (str s) = not (is_empty s)
truthy (arr nil) = false
truthy (arr (cons v vs)) = true
truthy (obj end) = false
truthy (obj (field k v d)) = true

pub items-of_list : (vs : List Json) → items (of_list vs) ≡ vs
items-of_list [] = refl
items-of_list (v ∷ vs) = ap (λ r. v ∷ r) (items-of_list vs)
