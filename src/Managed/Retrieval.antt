-- ===== src/Managed/Retrieval.antt =====
-- src/llmcut/managed/retrieval.py: `RetrievalService`, which answers a provider's requests for
-- deferred evidence. The state is the store of evidence and the service's cache; the request and the
-- plan do not change. `Operations` has what an operation does to the text.
pub mod Operations
pub mod Cached
pub mod Guarded
use Prim.Native.String.{◌++◌ as join, len}
use llmcut.Prelude.{
  ℕ, String, Bool, true, false, not, ◌&&◌, ◌||◌, Option, none, some, List, [], ◌∷◌, map, any, elem,
  lookup, insert, is_empty, ltb, ◌≟◌, if◌then◌else◌,
}
use llmcut.Result.{
  Result, ok, err, ◌>>=◌ as and_then, or_raise, retrieval_error, key_error, type_error,
}
use llmcut.Json.{Json, null, str, arr, obj, ℤ, pos, negsuc, Fields, get, is_true}
use llmcut.Exec.{Exec, ◌>>=◌, ◌>>◌, pure, raise, lift, raise_if, modify, gets}
use llmcut.Json.Values.{text_of}
use llmcut.World.{World}
use llmcut.Model.{digest_bytes}
use llmcut.Store.Evidence
use llmcut.Store.Evidence.{EvidenceStore}
use llmcut.Core.Recover.{join_lines}
use llmcut.Managed.Protocol.{Context, ToolDefinition, ManagedRequest, source_of}
use llmcut.Managed.Planner.{ContextPlan, tool_text}
use llmcut.Managed.Planner.Closure.{context_of}
use llmcut.Managed.Retrieval.Operations.{required_string, range_of, search_in, symbol_in}

pub record RetrievalResult : Type 0 where
  pub operation : String
  pub context_id : String
  pub content : String
  pub source : String
  pub digest : String
  pub revision : Option String
  pub cached : Bool

pub record Service : Type 0 where
  pub store : EvidenceStore
  pub cache : List (String × RetrievalResult)

abbrev pub in_store : {A : Type 0} → Exec EvidenceStore A → Exec Service A
in_store m s = let (a, store) = m s.store in (a, record s { store = store })

-- `_cache_key`
abbrev pub cache_key : World → String → Fields → String
cache_key w operation arguments = join operation (join ":" (w.dumps (obj arguments)))

-- `self.tools.get(name)`: the last tool of a name
unfoldable pub tool_of : String → List ToolDefinition → Option ToolDefinition
tool_of n [] = none
tool_of n (t ∷ ts) = elim (tool_of n ts) [
  | some u ↦ some u
  | none ↦ if n ≟ t.name then some t else none
]

abbrev pub available : {A : Type 0} → Option A → List String → String → String → Result A
available none deferred i message = err (retrieval_error message)
available (some a) deferred i message =
    if elem i deferred then ok a else err (retrieval_error message)

unfoldable pub discover : World → ManagedRequest → ContextPlan → Fields → Result RetrievalResult
discover w request plan arguments = and_then (required_string arguments "name") λ name.
    and_then (available (tool_of name request.tools) plan.deferred_tools name "tool is unavailable")
      λ tool. ok (record {
        operation = "tool.discover";
        context_id = name;
        content = tool_text w tool;
        source = "managed:tools";
        digest = digest_bytes w (tool_text w tool);
        revision = none;
        cached = false;
      })

abbrev path_or_empty : Option String → String
path_or_empty none = ""
path_or_empty (some p) = p

-- a context whose evidence is never given out
unfoldable pub is_secret : World → Context → Bool
is_secret w c =
    is_true (get "secret" c.extensions)
    || w.search "(?:^|/)(?:\\.env(?:\\.|$)|id_(?:rsa|ed25519)$|credentials?|secrets?)(?:/|\\.|$)"
        (path_or_empty c.source_path)

-- the test of `arguments.get("revision")` against the context's; a value that cannot be hashed is
-- a `TypeError`
abbrev same_revision : String → Option Json → Result (Unit {0})
same_revision r none = ok tt
same_revision r (some null) = ok tt
same_revision r (some (str s)) =
    if s ≟ r then ok tt else err (retrieval_error "stale repository evidence revision")
same_revision r (some (arr _)) = err (type_error "unhashable type")
same_revision r (some (obj _)) = err (type_error "unhashable type")
same_revision r (some _) = err (retrieval_error "stale repository evidence revision")

unfoldable pub check_revision : Option String → Option Json → Result (Unit {0})
check_revision none argument = ok tt
check_revision (some r) argument = if is_empty r then ok tt else same_revision r argument

unfoldable pub requested_dependencies : World → Context → Option Json → List String
requested_dependencies w c none = c.dependencies
requested_dependencies w c (some null) = c.dependencies
requested_dependencies w c (some v) = text_of w v ∷ []

unfoldable pub read_all : World → ContextPlan → List String → Exec EvidenceStore (List String)
read_all w plan [] = pure []
read_all w plan (d ∷ ds) = do
  digest ← lift (or_raise (lookup d plan.evidence) (key_error "evidence"))
  text ← Evidence.get w digest
  texts ← read_all w plan ds
  pure (text ∷ texts)

unfoldable pub read_dependencies :
    World → ContextPlan → Context → Fields → Exec EvidenceStore String
read_dependencies w plan c arguments =
    let wanted = requested_dependencies w c (get "dependency" arguments) in
    raise_if (any (λ d. not (elem d c.dependencies)) wanted)
      (retrieval_error "requested context is not a declared dependency")
    >> (read_all w plan wanted >>= λ texts. pure (join_lines texts))

-- the operations that give the evidence out whole
abbrev is_whole : String → Bool
is_whole operation = elem operation ("evidence.get" ∷ "context.expand" ∷ "repository.map" ∷ [])

-- what the operation makes of the verified text
unfoldable pub operate :
    World → ContextPlan → String → Context → Fields → String → Exec EvidenceStore String
operate w plan operation c arguments content =
    if elem operation ("source.range" ∷ "log.range" ∷ [])
    then lift (range_of w content arguments)
    else if operation ≟ "log.search"
    then lift (search_in w content arguments)
    else if operation ≟ "dependency.get"
    then read_dependencies w plan c arguments
    else if operation ≟ "symbol.get"
    then lift (and_then (required_string arguments "symbol") λ s. symbol_in w content s)
    else if is_whole operation
    then pure content
    else raise (retrieval_error "unsupported retrieval operation")

-- the checks before the evidence is read
unfoldable pub allowed : World → ManagedRequest → ContextPlan → Fields → Result Context
allowed w request plan arguments = and_then (required_string arguments "id") λ i.
    and_then
      (available (context_of i request.context) plan.deferred i
        "context is unavailable or already model-bound")
      λ c.
        if is_secret w c
        then err (retrieval_error "secret evidence is excluded from managed retrieval")
        else ok c

unfoldable pub read_context :
    World → ContextPlan → String → Fields → Context → Exec EvidenceStore RetrievalResult
read_context w plan operation arguments c = do
  digest ← lift (or_raise (lookup c.id plan.evidence) (key_error "evidence"))
  text ← Evidence.get w digest
  raise_if (not (digest_bytes w text ≟ digest))
      (retrieval_error "retrieved evidence digest mismatch")
  lift (check_revision c.revision (get "revision" arguments))
  content ← operate w plan operation c arguments text
  pure (record {
    operation = operation;
    context_id = c.id;
    content = content;
    source = source_of c;
    digest = digest;
    revision = c.revision;
    cached = false;
  })

-- `_execute`
unfoldable pub execute_fresh :
    World → ManagedRequest → ContextPlan → String → Fields → Exec EvidenceStore RetrievalResult
execute_fresh w request plan operation arguments =
    if operation ≟ "tool.discover"
    then lift (discover w request plan arguments)
    else (lift (allowed w request plan arguments) >>= λ c.
        read_context w plan operation arguments c)

-- `n > bound`
abbrev pub exceeds : ℕ → ℤ → Bool
exceeds n (pos m) = ltb m n
exceeds n (negsuc m) = true

abbrev pub remember : String → RetrievalResult → Exec Service RetrievalResult
remember key r s = (ok r, record s { cache = insert key r s.cache })

unfoldable pub answer :
    World
    → ManagedRequest
    → ContextPlan
    → String
    → Fields
    → Option RetrievalResult
    → Exec Service RetrievalResult
answer w request plan operation arguments (some previous) = pure (record previous { cached = true })
answer w request plan operation arguments none = do
  result ← in_store (execute_fresh w request plan operation arguments)
  raise_if (exceeds (len result.content) request.execution.max_retrieval_bytes)
      (retrieval_error "retrieval result exceeds configured volume bound")
  remember (cache_key w operation arguments) result

-- `execute`
unfoldable pub execute :
    World → ManagedRequest → ContextPlan → String → Fields → Exec Service RetrievalResult
execute w request plan operation arguments = do
  raise_if (not (elem operation plan.retrieval_operations))
      (retrieval_error "retrieval operation is not available")
  previous ← gets (λ s. lookup (cache_key w operation arguments) s.cache)
  answer w request plan operation arguments previous
