-- ===== src/Adapters.antt =====
-- src/llmcut/adapters: a provider's own requests and responses, to and from the canonical ones. The
-- adapters of the three providers fill one record.
pub mod Messages
pub mod OpenAi
pub mod Anthropic
pub mod Gemini
pub mod Registry
use llmcut.Prelude.{String, Bool, true, false, ◌&&◌, Option, none, some, if◌then◌else◌}
use llmcut.Result.{Result, ok, err, value_error}
use llmcut.Json.{Json, str, arr, obj, nil, Fields, get, remove}
use llmcut.Json.Equality.{json_eq}
use llmcut.Model.{CanonicalRequest}

-- what `usage` reads; the values are whatever the response has
pub record ProviderUsage : Type 0 where
  pub input_tokens : Json
  pub output_tokens : Json
  pub cached_tokens : Json
  pub reasoning_tokens : Json

-- `ProviderAdapter` of base.py
pub record ProviderAdapter : Type 0 where
  pub validate_native : Fields → Result (Unit {0})
  pub from_native : Fields → Result CanonicalRequest
  pub to_native : CanonicalRequest → Result Fields
  pub usage : Fields → Result ProviderUsage
  pub semantically_equal : Fields → Fields → Bool

abbrev is_named : Option Json → Bool
is_named (some (str String.[])) = false
is_named (some (str (String.◌∷◌ c s))) = true
is_named _ = false

-- `ProviderAdapter.validate_native`
unfoldable pub validate_model : Fields → Result (Unit {0})
validate_model payload =
    if is_named (get "model" payload)
    then ok tt
    else err (value_error "request model must be a non-empty string")

abbrev is_empty_list : Option Json → Bool
is_empty_list (some (arr nil)) = true
is_empty_list _ = false

abbrev is_absent : Option Json → Bool
is_absent none = true
is_absent (some v) = false

-- an empty list of tools counts as none, where the other has none
abbrev pub without_tools : Fields → Fields → Fields
without_tools d other =
    if is_absent (get "tools" other) && is_empty_list (get "tools" d) then remove "tools" d else d

-- `ProviderAdapter.semantically_equal`
unfoldable pub semantically_equal : Fields → Fields → Bool
semantically_equal left right =
    json_eq (obj (without_tools left right)) (obj (without_tools right left))
