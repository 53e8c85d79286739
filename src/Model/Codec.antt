-- ===== src/Model/Codec.antt =====
-- `CanonicalRequest.to_dict` and `from_dict` of src/llmcut/model.py.
-- A field that holds a value of another JSON type is a `type_error` here; Python stores it, and
-- fails where it is first used.
pub mod RoundTrip
use llmcut.Prelude.{
  ℕ, String, Bool, not, Option, none, some, List, [], ◌∷◌, map, all, elem, if◌then◌else◌,
}
use llmcut.Result.{
  Result, ok, err, ◌>>=◌, ◌>>◌, raise_if, or_raise, key_error, value_error, type_error,
}
use llmcut.Json.{
  ℤ, pos, negsuc, Json, null, boolean, int, real, str, arr, obj, Items, nil, cons, Fields, end,
  field, get, keys, of_list, truthy,
}
use llmcut.World.{World}
use llmcut.Model.{
  BlockKind, Retention, CountQuality, kind_value, kind_of, retention_value, retention_of,
  quality_value, quality_of, TokenCount, EvidenceReference, ContextBlock, post_init,
  ModelConfiguration, CanonicalRequest,
}

-- `None` is null
abbrev optional {ℓ} : {A : Type ℓ} → (A → Json) → Option A → Json
optional f none = null
optional f (some a) = f a

abbrev strings : List String → Items
strings [] = nil
strings (s ∷ ss) = cons (str s) (strings ss)

token_dict : TokenCount → Json
unfolding quality_value
token_dict t = obj (
    field "value" (int (pos t.value))
      (field "quality" (str (quality_value t.quality)) (field "method" (str t.method) end)))

reference_dict : EvidenceReference → Json
reference_dict r = obj (
    field "digest" (str r.digest) (
      field "source" (str r.source) (
        field "revision" (optional str r.revision) (
          field "start_line" (optional int r.start_line)
            (field "end_line" (optional int r.end_line) end)))))

block_dict : ContextBlock → Json
unfolding reference_dict token_dict kind_value retention_value
block_dict b = obj (
    field "id" (str b.id) (
      field "kind" (str (kind_value b.kind)) (
        field "content" (str b.content) (
          field "source" (str b.source) (
            field "priority" (int b.priority) (
              field "dependencies" (arr (strings b.dependencies)) (
                field "metadata" (obj b.metadata) (
                  field "reference" (optional reference_dict b.reference) (
                    field "tokens" (optional token_dict b.tokens) (
                      field "digest" (str b.digest)
                        (field "retention" (str (retention_value b.retention)) end)))))))))))

model_dict : ModelConfiguration → Json
model_dict m = obj (
    field "provider" (str m.provider) (
      field "model" (str m.model) (
        field "parameters" (obj m.parameters) (
          field "reasoning" (obj m.reasoning)
            (field "token_budget" (optional int m.token_budget) end)))))

block_dicts : List ContextBlock → Items
unfolding block_dict
block_dicts [] = nil
block_dicts (b ∷ bs) = cons (block_dict b) (block_dicts bs)

unfoldable pub to_dict : CanonicalRequest → Json
unfolding block_dicts model_dict
to_dict r = obj (
    field "blocks" (arr (block_dicts r.blocks)) (
      field "model" (model_dict r.model) (
        field "tools" (arr (block_dicts r.tools)) (
          field "cache" (obj r.cache) (
            field "passthrough" (obj r.passthrough)
              (field "request_id" (optional str r.request_id) end))))))

unfoldable pub to_json : World → CanonicalRequest → String
to_json w r = w.dumps (to_dict r)

abbrev as_text : Json → Result String
as_text (str s) = ok s
as_text _ = err (type_error "expected a string")

abbrev as_int : Json → Result ℤ
as_int (int n) = ok n
as_int _ = err (type_error "expected an integer")

abbrev as_count : Json → Result ℕ
as_count (int (pos n)) = ok n
as_count _ = err (type_error "expected a count")

abbrev as_dict : Json → Result Fields
as_dict (obj d) = ok d
as_dict _ = err (type_error "expected a mapping")

abbrev as_items : Json → Result Items
as_items (arr xs) = ok xs
as_items _ = err (type_error "expected a list")

abbrev as_option {ℓ} : {A : Type ℓ} → (Json → Result A) → Json → Result (Option A)
as_option f null = ok none
as_option f v = f v >>= λ a. ok (some a)

as_texts : Items → Result (List String)
as_texts nil = ok []
as_texts (cons v vs) = do s ← as_text v; ss ← as_texts vs; ok (s ∷ ss)

-- a field with a default
abbrev or_default {ℓ} : {A : Type ℓ} → (Json → Result A) → A → Option Json → Result A
or_default f a none = ok a
or_default f a (some v) = f v

-- `cls(**d)` raises on a keyword that is no field, and on a field that has no default
abbrev only : List String → Fields → Result (Unit {0})
only names d = raise_if (not (all (λ k. elem k names) (keys d))) (type_error "unexpected keyword")

abbrev argument : String → Fields → Result Json
argument k d = or_raise (get k d) (type_error "missing argument")

token_from_dict : Json → Result TokenCount
token_from_dict v = do
  d ← as_dict v
  value ← or_raise (get "value" d) (key_error "value")
  quality ← or_raise (get "quality" d) (key_error "quality")
  method ← or_raise (get "method" d) (key_error "method")
  value ← as_count value
  name ← as_text quality
  quality ← or_raise (quality_of name) (value_error "no such count quality")
  method ← as_text method
  ok (record { value = value; quality = quality; method = method })

reference_from_dict : Json → Result EvidenceReference
reference_from_dict v = do
  d ← as_dict v
  only ("digest" ∷ "source" ∷ "revision" ∷ "start_line" ∷ "end_line" ∷ []) d
  digest ← argument "digest" d
  digest ← as_text digest
  source ← argument "source" d
  source ← as_text source
  revision ← or_default (as_option as_text) none (get "revision" d)
  start ← or_default (as_option as_int) none (get "start_line" d)
  last ← or_default (as_option as_int) none (get "end_line" d)
  ok (record {
    digest = digest;
    source = source;
    revision = revision;
    start_line = start;
    end_line = last;
  })

-- `if data.get(key): data[key] = decode(data[key])`; what is falsy stays, and stands for `None`
abbrev if_truthy {ℓ} : {A : Type ℓ} → (Json → Result A) → Option Json → Result (Option A)
if_truthy f none = ok none
if_truthy f (some v) = if truthy v then (f v >>= λ a. ok (some a)) else ok none

block_from_dict : World → Json → Result ContextBlock
unfolding token_from_dict reference_from_dict as_texts
block_from_dict w v = do
  d ← as_dict v
  kind ← or_raise (get "kind" d) (key_error "kind")
  kind ← as_text kind
  kind ← or_raise (kind_of kind) (value_error "no such block kind")
  retention ← or_default as_text "required" (get "retention" d)
  retention ← or_raise (retention_of retention) (value_error "no such retention")
  reference ← if_truthy reference_from_dict (get "reference" d)
  tokens ← if_truthy token_from_dict (get "tokens" d)
  only
      ("id" ∷ "kind" ∷ "content" ∷ "source" ∷ "priority" ∷ "dependencies" ∷ "metadata" ∷ "reference"
        ∷ "tokens" ∷ "digest" ∷ "retention" ∷ [])
      d
  id ← argument "id" d
  id ← as_text id
  content ← argument "content" d
  content ← as_text content
  source ← argument "source" d
  source ← as_text source
  priority ← or_default as_int (pos 50) (get "priority" d)
  dependencies ← or_default as_items nil (get "dependencies" d)
  dependencies ← as_texts dependencies
  metadata ← or_default as_dict end (get "metadata" d)
  digest ← or_default as_text "" (get "digest" d)
  post_init w (record {
    id = id;
    kind = kind;
    content = content;
    source = source;
    priority = priority;
    dependencies = dependencies;
    metadata = metadata;
    reference = reference;
    tokens = tokens;
    digest = digest;
    retention = retention;
  })

model_from_dict : Json → Result ModelConfiguration
model_from_dict v = do
  d ← as_dict v
  only ("provider" ∷ "model" ∷ "parameters" ∷ "reasoning" ∷ "token_budget" ∷ []) d
  provider ← argument "provider" d
  provider ← as_text provider
  model ← argument "model" d
  model ← as_text model
  parameters ← or_default as_dict end (get "parameters" d)
  reasoning ← or_default as_dict end (get "reasoning" d)
  budget ← or_default (as_option as_int) none (get "token_budget" d)
  ok (record {
    provider = provider;
    model = model;
    parameters = parameters;
    reasoning = reasoning;
    token_budget = budget;
  })

blocks_from_dict : World → Items → Result (List ContextBlock)
unfolding block_from_dict
blocks_from_dict w nil = ok []
blocks_from_dict w (cons v vs) = do b ← block_from_dict w v; bs ← blocks_from_dict w vs; ok (b ∷ bs)

unfoldable pub from_dict : World → Json → Result CanonicalRequest
unfolding blocks_from_dict model_from_dict
from_dict w v = do
  d ← as_dict v
  blocks ← or_default as_items nil (get "blocks" d)
  blocks ← blocks_from_dict w blocks
  tools ← or_default as_items nil (get "tools" d)
  tools ← blocks_from_dict w tools
  model ← or_raise (get "model" d) (key_error "model")
  model ← model_from_dict model
  cache ← or_default as_dict end (get "cache" d)
  passthrough ← or_default as_dict end (get "passthrough" d)
  request_id ← or_default (as_option as_text) none (get "request_id" d)
  ok (record {
    blocks = blocks;
    model = model;
    tools = tools;
    cache = cache;
    passthrough = passthrough;
    request_id = request_id;
  })
