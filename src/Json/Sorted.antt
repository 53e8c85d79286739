-- ===== src/Json/Sorted.antt =====
-- The value that `json.loads` reads back from what `json.dumps` writes with `sort_keys=True`: the keys
-- of each dictionary are in the order of their characters' codes.
use Prim.Native.String.{compare}
use Prim.Native.Nat.{Ordering}
use llmcut.Prelude.{String, Bool, true, false, if◌then◌else◌}
use llmcut.Json.{
  Json, null, boolean, int, real, str, arr, obj, Items, nil, cons, Fields, end, field,
}

-- whether a key stands before another
abbrev pub precedes : String → String → Bool
precedes j k = elim (compare j k) [ Ordering.lt ↦ true | _ ↦ false ]

abbrev pub insert_key : String → Json → Fields → Fields
insert_key k v end = field k v end
insert_key k v (field j u d) =
    let rest = insert_key k v d in if precedes k j then field k v (field j u d) else field j u rest

abbrev mutual
  pub sort_keys : Json → Json
  sort_keys null = null
  sort_keys (boolean b) = boolean b
  sort_keys (int n) = int n
  sort_keys (real r) = real r
  sort_keys (str s) = str s
  sort_keys (arr vs) = arr (sort_items vs)
  sort_keys (obj d) = obj (sort_fields d)

  pub sort_items : Items → Items
  sort_items nil = nil
  sort_items (cons v vs) = cons (sort_keys v) (sort_items vs)

  pub sort_fields : Fields → Fields
  sort_fields end = end
  sort_fields (field k v d) = insert_key k (sort_keys v) (sort_fields d)
