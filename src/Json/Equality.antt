-- ===== src/Json/Equality.antt =====
-- `==` on JSON values. A Boolean equals no number here, and a number with a fraction none without.
use llmcut.Prelude.{ℕ, suc, Bool, true, false, not, ◌&&◌, none, some, ◌==◌, ◌≟◌}
use llmcut.Json.{
  Json, null, boolean, int, real, str, arr, obj, Items, nil, cons, Fields, field, end, ℤ, pos,
  negsuc, get,
}

abbrev bool_eq : Bool → Bool → Bool
bool_eq true b = b
bool_eq false b = not b

abbrev int_eq : ℤ → ℤ → Bool
int_eq (pos m) (pos n) = m == n
int_eq (negsuc m) (negsuc n) = m == n
int_eq _ _ = false

-- `len(d)`
abbrev size_of : Fields → ℕ
size_of end = 0
size_of (field k v d) = suc (size_of d)

-- `==` on JSON values: the order of a dictionary does not count
unfoldable mutual
  pub json_eq : Json → Json → Bool
  json_eq null null = true
  json_eq (boolean a) (boolean b) = bool_eq a b
  json_eq (int a) (int b) = int_eq a b
  json_eq (real a) (real b) = a ≟ b
  json_eq (str a) (str b) = a ≟ b
  json_eq (arr a) (arr b) = items_eq a b
  json_eq (obj a) (obj b) = (size_of a == size_of b) && fields_in a b
  json_eq _ _ = false

  pub items_eq : Items → Items → Bool
  items_eq nil nil = true
  items_eq (cons a as') (cons b bs) = json_eq a b && items_eq as' bs
  items_eq _ _ = false

  -- every entry of the one stands in the other
  pub fields_in : Fields → Fields → Bool
  fields_in end e = true
  fields_in (field k v d) e =
      let rest = fields_in d e in elim (get k e) [ none ↦ false | some u ↦ json_eq v u ] && rest
