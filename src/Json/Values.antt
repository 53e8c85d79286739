-- ===== src/Json/Values.antt =====
-- What Python does with a value that may be of any JSON type: `get` with a default, subscripts, loops
-- over it, `dict(value)`. Where the type does not fit, the exception is the one that Python raises.
use llmcut.Prelude.{String, Option, none, some, List, [], ◌∷◌, if◌then◌else◌}
use llmcut.Result.{Result, ok, err, ◌>>=◌, key_error, type_error, value_error, attribute_error}
use llmcut.Json.{Json, str, arr, obj, Items, nil, cons, Fields, field, end, get, set, items, truthy}
use llmcut.World.{World}

-- `d.get(key, default)`
abbrev pub get_or : String → Json → Fields → Json
get_or k v d = elim (get k d) [ none ↦ v | some u ↦ u ]

-- `d.get(key) or default`
abbrev pub get_truthy : String → Json → Fields → Json
get_truthy k v d = elim (get k d) [ none ↦ v | some u ↦ if truthy u then u else v ]

-- the object of an attribute such as `.get`
abbrev pub as_object : Json → Result Fields
as_object (obj d) = ok d
as_object _ = err (attribute_error "get")

-- `value[key]` for a text key
abbrev pub subscript : String → Json → Result Json
subscript k (obj d) = elim (get k d) [ none ↦ err (key_error k) | some v ↦ ok v ]
subscript k _ = err (type_error "indices must be integers")

-- `value[0]`
abbrev pub first_item : Json → Result Json
first_item (arr nil) = err (key_error "index out of range")
first_item (arr (cons v vs)) = ok v
first_item (obj d) = err (key_error "0")
first_item (str String.[]) = err (key_error "index out of range")
first_item (str (String.◌∷◌ c s)) = ok (str (String.◌∷◌ c String.[]))
first_item _ = err (type_error "object is not subscriptable")

-- `{**base, **extra}`
abbrev pub merge : Fields → Fields → Fields
merge base end = base
merge base (field k v d) = merge (set k v base) d

-- `{key: d[key] for key in keys if key in d}`
abbrev pub pick : List String → Fields → Fields
pick [] d = end
pick (k ∷ ks) d = let rest = pick ks d in elim (get k d) [ none ↦ rest | some v ↦ field k v rest ]

-- `str(value)`
abbrev pub text_of : World → Json → String
text_of w (str s) = s
text_of w v = w.to_str v

-- the pairs of a text and a value that `dict` takes
abbrev pairs_of : Items → Result Fields
pairs_of nil = ok end
pairs_of (cons (arr (cons (str k) (cons v nil))) vs) = pairs_of vs >>= λ d. ok (field k v d)
pairs_of (cons v vs) = err (value_error "dictionary update sequence")

-- `dict(value)`; a list of pairs keeps the order in which they stand
abbrev pub to_dictionary : Json → Result Fields
to_dictionary (obj d) = ok d
to_dictionary (arr vs) = pairs_of vs >>= λ d. ok (merge end d)
to_dictionary (str String.[]) = ok end
to_dictionary (str (String.◌∷◌ c s)) = err (value_error "dictionary update sequence")
to_dictionary _ = err (type_error "object is not iterable")

abbrev characters : String → List Json
characters String.[] = []
characters (String.◌∷◌ c s) = str (String.◌∷◌ c String.[]) ∷ characters s

abbrev key_texts : Fields → List Json
key_texts end = []
key_texts (field k v d) = str k ∷ key_texts d

-- what a loop takes from a value, or from an empty list where there is none
abbrev pub iterate_or_empty : Option Json → Result (List Json)
iterate_or_empty none = ok []
iterate_or_empty (some (arr vs)) = ok (items vs)
iterate_or_empty (some (obj d)) = ok (key_texts d)
iterate_or_empty (some (str s)) = ok (characters s)
iterate_or_empty (some _) = err (type_error "object is not iterable")

-- a loop over `d.get(key, [])`
abbrev pub loop_over : String → Fields → Result (List Json)
loop_over k d = iterate_or_empty (get k d)

-- what remains of a container without its own key, where something does
abbrev pub extra_items : Fields → List Json → List Json
extra_items end others = others
extra_items (field k v d) others = obj (field k v d) ∷ others
