-- ===== src/Proxy/Native.antt =====
-- src/llmcut/proxy/optimize.py: a provider's own request is optimized, or passed on as it came. The
-- body is the text that its bytes decode to; the duration is left out. In the comparison of values a
-- Boolean equals no number, and a number with a fraction none without.
pub mod Safe
pub mod Uncaught
use Prim.Native.Char.{code}
use llmcut.Prelude.{
  ℕ, zero, suc, ◌+◌, ◌-◌, String, Bool, true, false, not, ◌&&◌, Option, none, some, List, [], ◌∷◌,
  ◌++◌, length, elem, leb, ◌==◌, ◌≟◌, if◌then◌else◌,
}
use llmcut.Result.{
  Error, Result, ok, err, ◌>>=◌ as and_then, value_error, key_error, type_error, decode_error,
  protocol_error,
}
use llmcut.Json.{
  Json, null, boolean, int, real, str, arr, obj, Items, nil, cons, Fields, field, end, ℤ, pos,
  negsuc, get, without, items,
}
use llmcut.Json.Equality.{json_eq, items_eq}
use llmcut.Json.Values.{get_or, iterate_or_empty, extra_items}
use llmcut.Adapters.{ProviderAdapter}
use llmcut.Exec.{Exec, ◌>>=◌, ◌>>◌, pure, lift}
use llmcut.World.{World}
use llmcut.Model.{CanonicalRequest, quality_value}
use llmcut.Policy.{Policy, OptimizationMode, default_policy}
use llmcut.Store.Evidence.{EvidenceStore}
use llmcut.Tokens.{TokenCounter}
use llmcut.Core.Optimize.{OptimizationReport, optimize}

pub record NativeOptimization : Type 0 where
  pub body : String
  pub status : String
  pub endpoint_format : String
  pub original_tokens : ℕ
  pub attempted_tokens : ℕ
  pub effective_tokens : ℕ
  pub count_quality : String
  pub fallback_reason : Option String
  pub omitted_blocks : ℕ
  pub report : Option OptimizationReport

-- no value stands deeper than the limit
unfoldable mutual
  pub within_depth : ℕ → Json → Bool
  within_depth zero v = false
  within_depth (suc n) (arr vs) = items_within n vs
  within_depth (suc n) (obj d) = fields_within n d
  within_depth (suc n) v = true

  pub items_within : ℕ → Items → Bool
  items_within n nil = true
  items_within n (cons v vs) = within_depth n v && items_within n vs

  pub fields_within : ℕ → Fields → Bool
  fields_within n end = true
  fields_within n (field k v d) = within_depth n v && fields_within n d

-- `_bounded_json`
unfoldable pub bounded_json : World → String → Result Fields
bounded_json w body = elim (w.loads body) [
  | none ↦ err (decode_error "invalid JSON")
  | some (obj d) ↦
      if within_depth 64 (obj d)
      then ok d
      else err (value_error "JSON nesting exceeds safety limit")
  | some _ ↦ err (value_error "provider request must be a JSON object")
]

abbrev list_eq : List Json → List Json → Bool
list_eq [] [] = true
list_eq (a ∷ as') (b ∷ bs) = json_eq a b && list_eq as' bs
list_eq _ _ = false

-- `_unique`, with the keys that it has met
unfoldable pub unique_from : World → List String → List Json → List Json
unique_from w seen [] = []
unique_from w seen (v ∷ vs) =
    let rest = unique_from w seen vs in
    let rest_seen = unique_from w (w.dumps v ∷ seen) vs in
    if elem (w.dumps v) seen then rest else v ∷ rest_seen

unfoldable pub unique : World → List Json → List Json
unique w vs = unique_from w [] vs

-- `flatten`: the function declarations, and what else the containers hold
unfoldable pub flatten : List Json → Result (List Json × List Json)
flatten [] = ok ([], [])
flatten (obj d ∷ vs) = and_then (iterate_or_empty (get "functionDeclarations" d)) λ declared.
    and_then (flatten vs)
      λ rest. ok (declared ++ rest.0, extra_items (without ("functionDeclarations" ∷ []) d) rest.1)
flatten (v ∷ vs) = and_then (flatten vs) λ rest. ok (rest.0, v ∷ rest.1)

abbrev regrouped : World → List Json → List Json → Result Bool
regrouped w original candidate = and_then (flatten original) λ old.
    and_then (flatten candidate) λ new. ok (list_eq old.1 new.1 && list_eq new.0 (unique w old.0))

-- `_exact_duplicate_reduction`
unfoldable pub exact_duplicate_reduction : World → Json → Json → String → Result Bool
exact_duplicate_reduction w (arr original) (arr candidate) endpoint =
    if items_eq original candidate
    then ok true
    else if endpoint ≟ "generate-content"
    then regrouped w (items original) (items candidate)
    else ok (list_eq (items candidate) (unique w (items original)))
exact_duplicate_reduction w original candidate endpoint = ok (json_eq original candidate)

-- the key of the conversation in a request, by endpoint
unfoldable pub primary_of : String → Option String
primary_of endpoint =
    if endpoint ≟ "chat-completions"
    then some "messages"
    else if endpoint ≟ "responses"
    then some "input"
    else if endpoint ≟ "messages"
    then some "messages"
    else if endpoint ≟ "generate-content"
    then some "contents"
    else none

-- `_safe_candidate`; an unknown endpoint is a `KeyError`
unfoldable pub safe_candidate : World → Fields → Fields → String → Result Bool
safe_candidate w original candidate endpoint = elim (primary_of endpoint) [
  | none ↦ err (key_error "endpoint")
  | some primary ↦
      if not (
        json_eq (obj (without (primary ∷ "tools" ∷ []) original))
          (obj (without (primary ∷ "tools" ∷ []) candidate)))
      then ok false
      else if not (json_eq (get_or primary (arr nil) original) (get_or primary (arr nil) candidate))
      then ok false
      else exact_duplicate_reduction w (get_or "tools" (arr nil) original)
          (get_or "tools" (arr nil) candidate) endpoint
]

-- what the `except` clause names; a `ProtocolError` is a `ValueError`
abbrev pub is_caught : Error → Bool
is_caught (value_error m) = true
is_caught (key_error m) = true
is_caught (type_error m) = true
is_caught (decode_error m) = true
is_caught (protocol_error m) = true
is_caught _ = false

module _ (w : World) (adapter : ProviderAdapter) (endpoint : String)
    (optimizer counter : TokenCounter) (mode : OptimizationMode) (body : String) where
  abbrev pub original_count : ℕ
  original_count = (counter body none).value

  -- `fallback`: the body goes on as it came
  abbrev pub unreduced : String → String → ℕ → ℕ → Option OptimizationReport → NativeOptimization
  unreduced status reason attempted omitted report = record {
    body = body;
    status = status;
    endpoint_format = endpoint;
    original_tokens = original_count;
    attempted_tokens = attempted;
    effective_tokens = original_count;
    count_quality = quality_value (counter body none).quality;
    fallback_reason = some reason;
    omitted_blocks = omitted;
    report = report;
  }

  abbrev omitted : CanonicalRequest → CanonicalRequest → ℕ
  omitted canonical optimized =
      ((length canonical.blocks + length canonical.tools) - length optimized.blocks)
      - length optimized.tools

  -- the two tests of a candidate
  unfoldable pub accept :
      CanonicalRequest → CanonicalRequest × OptimizationReport → Fields → Bool → NativeOptimization
  accept canonical out candidate safe =
      let text = w.dumps_native (obj candidate) in
      let attempted = (counter text none).value in
      if not safe
      then unreduced "restored" "optimized reconstruction failed structural safety checks" attempted
          0 (some out.1)
      else if leb original_count attempted
      then unreduced "unchanged" "optimized native request was not smaller" attempted
          (omitted canonical out.0) (some out.1)
      else record {
        body = text;
        status = "optimized";
        endpoint_format = endpoint;
        original_tokens = original_count;
        attempted_tokens = attempted;
        effective_tokens = attempted;
        count_quality = quality_value (counter body none).quality;
        fallback_reason = none;
        omitted_blocks = omitted canonical out.0;
        report = some out.1;
      }

  abbrev pub reduce : Fields → CanonicalRequest → Exec EvidenceStore NativeOptimization
  reduce payload canonical = do
    out ← optimize w optimizer canonical (record default_policy { mode = mode })
    candidate ← lift (adapter.to_native out.0)
    safe ← lift (safe_candidate w payload candidate endpoint)
    pure (accept canonical out candidate safe)

  abbrev pub reduce_if : Bool → Fields → CanonicalRequest → Exec EvidenceStore NativeOptimization
  reduce_if true payload canonical = reduce payload canonical
  reduce_if false payload canonical = pure (
      unreduced "restored" "native round-trip was not semantically equivalent" original_count 0
        none)

  -- the body of the `try`
  unfoldable pub attempt : Exec EvidenceStore NativeOptimization
  attempt = do
    payload ← lift (bounded_json w body)
    lift (adapter.validate_native payload)
    canonical ← lift (adapter.from_native payload)
    reconstructed ← lift (adapter.to_native canonical)
    reduce_if (adapter.semantically_equal payload reconstructed) payload canonical

  abbrev pub caught :
      Result NativeOptimization × EvidenceStore → Result NativeOptimization × EvidenceStore
  caught (ok n, s) = (ok n, s)
  caught (err e, s) =
      if is_caught e
      then (
        ok (
            unreduced "restored" "request could not be safely parsed or optimized" original_count 0
              none),
        s,
      )
      else (err e, s)

  -- `optimize_native`
  unfoldable pub optimize_native : Exec EvidenceStore NativeOptimization
  optimize_native s = caught (attempt s)
