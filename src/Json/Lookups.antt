-- ===== src/Json/Lookups.antt =====
-- What a dictionary holds after an assignment.
use llmcut.Prelude.{String, false, some, ◌≡◌, arith, eq_iff, eq_refl, ◌≟◌}
use llmcut.Json.{Json, Fields, end, field, get, set}

pub get-set_self : (k : String) (v : Json) (d : Fields) → get k (set k v d) ≡ some v
get-set_self k v end = ground (arith, eq_refl k)
get-set_self k v (field j u d) = ground (arith, eq_refl k, get-set_self k v d)

pub get-set_other :
    (k j : String) (v : Json) (d : Fields) → (k ≟ j) ≡ false → get k (set j v d) ≡ get k d
get-set_other k j v end h = ground (arith, h)
get-set_other k j v (field i u d) h =
    ground (arith, h, get-set_other k j v d h, eq_iff j i, eq_iff k i, eq_iff k j)
