-- ===== src/Managed/Protocol.antt =====
-- src/llmcut/managed/protocol.py: managed requests and their validation. A time in seconds is in
-- thousandths. The search for cycles is in `Cycles`.
mod Identifier
pub mod Cycles
pub mod Validity
unfoldable pub use Identifier.{is_identifier}
use Prim.Native.String.{◌++◌ as join}
use llmcut.Prelude.{
  ℕ, ◌≤◌, String, Bool, true, false, not, ◌&&◌, ◌||◌, Option, none, some, List, [], ◌∷◌, ◌++◌, map,
  any, all, keep_if, elem, lookup, is_empty, leb, ltb, ◌≟◌, if◌then◌else◌,
}
use llmcut.Result.{Result, ok, err, ◌>>=◌, ◌>>◌, raise_if, for_each, protocol_error}
use llmcut.Json.{ℤ, pos, negsuc, Json, null, str, obj, Fields, field, end, set, get, keys, without}
use llmcut.Json.Values.{merge, get_or, to_dictionary}
use llmcut.World.{World}
use llmcut.Model.{
  BlockKind, system, developer, tool_call, tool_result, source_code, test, document, current_task,
  Retention, required, stable, ephemeral, recoverable, kind_eq, ContextBlock, new_block,
  ModelConfiguration,
}
use llmcut.Policy.{OptimizationMode, IntegrationMode, transparent, managed}
use llmcut.Managed.Protocol.Cycles.{reject_cycles}

pub record Context : Type 0 where
  pub id : String
  pub kind : BlockKind
  pub content : String
  pub retention : Retention
  pub priority : ℤ
  pub source_path : Option String
  pub dependencies : List String
  pub tool_call_id : Option String
  pub revision : Option String
  pub extensions : Fields

pub record ToolDefinition : Type 0 where
  pub name : String
  pub description : String
  pub input_schema : Json
  pub category : String
  pub required_tool : Bool
  pub extensions : Fields

pub record ExecutionSettings : Type 0 where
  pub integration : IntegrationMode
  pub optimization : OptimizationMode
  pub max_turns : ℤ
  pub timeout_seconds : ℤ
  pub max_retrieval_bytes : ℤ
  pub max_total_tokens : Option ℕ

pub record ManagedRequest : Type 0 where
  pub provider : String
  pub model : String
  pub task : String
  pub context : List Context
  pub tools : List ToolDefinition
  pub settings : Fields
  pub execution : ExecutionSettings
  pub schema_version : String
  pub extensions : Fields

-- `self.source_path or f"managed:{self.id}"`
abbrev or_managed : String → Option String → String
or_managed i none = join "managed:" i
or_managed i (some p) = if is_empty p then join "managed:" i else p

abbrev pub source_of : Context → String
source_of c = or_managed c.id c.source_path

abbrev optional_text : Option String → Json
optional_text none = null
optional_text (some s) = str s

-- `Context.to_block`
unfoldable pub to_block : World → Context → ContextBlock
to_block w c =
    record (new_block w c.id c.kind c.content (source_of c)
      (merge
        (field "tool_call_id" (optional_text c.tool_call_id)
          (field "revision" (optional_text c.revision) end))
        c.extensions)
      c.retention) { priority = c.priority; dependencies = c.dependencies }

-- `lo <= z <= hi`
abbrev pub within : ℕ → ℕ → ℤ → Bool
within lo hi (pos n) = leb lo n && leb n hi
within lo hi (negsuc n) = false

-- `z <= 0`
abbrev not_positive : ℤ → Bool
not_positive (pos n) = leb n 0
not_positive (negsuc n) = true

-- `z < 0`
abbrev is_negative : ℤ → Bool
is_negative (pos n) = false
is_negative (negsuc n) = true

abbrev is_managed : IntegrationMode → Bool
is_managed managed = true
is_managed transparent = false

-- system, developer and current-task blocks
abbrev pub is_critical : BlockKind → Bool
is_critical system = true
is_critical developer = true
is_critical current_task = true
is_critical _ = false

-- required, stable and ephemeral blocks
abbrev pub is_retained : Retention → Bool
is_retained required = true
is_retained stable = true
is_retained ephemeral = true
is_retained _ = false

abbrev text_or_empty : Option String → String
text_or_empty none = ""
text_or_empty (some s) = s

-- a tool call that has no identifier, or one that was used
abbrev bad_call : List String → Option String → Bool
bad_call calls none = true
bad_call calls (some i) = is_empty i || elem i calls

abbrev unknown_call : List String → Option String → Bool
unknown_call calls none = true
unknown_call calls (some i) = not (elem i calls)

-- the identifiers and the tool calls that the loop has met
abbrev pub Met : Type 0
Met = List String × List String

-- the body of the first loop
unfoldable pub check_context : Met → Context → Result Met
check_context (ids, calls) item = do
  raise_if (not (is_identifier item.id) || elem item.id ids)
      (protocol_error "invalid or duplicate context id")
  raise_if (not (within 0 100 item.priority)) (protocol_error "priority outside 0..100")
  raise_if (is_critical item.kind && not (is_retained item.retention))
      (protocol_error "critical context cannot be removable")
  raise_if (kind_eq item.kind tool_call && bad_call calls item.tool_call_id)
      (protocol_error "tool call needs a unique tool_call_id")
  let calls' =
      if kind_eq item.kind tool_call then text_or_empty item.tool_call_id ∷ calls else calls
  raise_if (kind_eq item.kind tool_result && unknown_call calls' item.tool_call_id)
      (protocol_error "tool result has no preceding tool call")
  ok (item.id ∷ ids, calls')

unfoldable pub check_contexts : Met → List Context → Result Met
check_contexts met [] = ok met
check_contexts met (c ∷ cs) = check_context met c >>= λ m. check_contexts m cs

abbrev is_object : Json → Bool
is_object (obj d) = true
is_object _ = false

unfoldable pub check_tools : List String → List ToolDefinition → Result (Unit {0})
check_tools names [] = ok tt
check_tools names (t ∷ ts) = do
  raise_if (not (is_identifier t.name) || elem t.name names)
      (protocol_error "invalid or duplicate tool name")
  raise_if (not (is_object t.input_schema)) (protocol_error "input_schema must be an object")
  check_tools (t.name ∷ names) ts

-- `{item.id: item.dependencies for item in context}`
abbrev pub graph_of : List Context → List (String × List String)
graph_of = map (λ (c : Context). (c.id, c.dependencies))

abbrev pub sensitive : String
sensitive = "(?:credential|api[_-]?key|authorization|password|secret|token)"

-- the checks that come before the loops
unfoldable pub check_settings : World → ManagedRequest → Result (Unit {0})
check_settings w r = do
  raise_if (not (r.schema_version ≟ "1")) (protocol_error "unsupported managed schema_version")
  raise_if (is_empty r.provider || is_empty r.model || is_empty r.task)
      (protocol_error "provider, model, and current task are required")
  raise_if (any (w.search sensitive) (keys r.extensions))
      (protocol_error "request-provided credential fields are prohibited")
  raise_if (not (is_managed r.execution.integration))
      (protocol_error "managed protocol requires execution.integration=managed")
  raise_if (not (within 1 64 r.execution.max_turns))
      (protocol_error "max_turns must be between 1 and 64")
  raise_if (not_positive r.execution.timeout_seconds || is_negative r.execution.max_retrieval_bytes)
      (protocol_error "execution bounds must be positive")

-- every dependency names a context or the current task
abbrev pub check_dependencies : List String → List Context → Result (Unit {0})
check_dependencies ids = for_each (λ (c : Context).
    raise_if (not (all (λ d. elem d ids) c.dependencies)) (protocol_error "unknown dependencies"))

unfoldable pub validate : World → ManagedRequest → Result (Unit {0})
validate w r = do
  check_settings w r
  met ← check_contexts ("current-task" ∷ [], []) r.context
  check_dependencies met.0 r.context
  reject_cycles (graph_of r.context)
  check_tools [] r.tools

-- `dict(self.settings.get("reasoning", {}))`
abbrev reasoning_of : ManagedRequest → Result Fields
reasoning_of r = to_dictionary (get_or "reasoning" (obj end) r.settings)

abbrev configured : ManagedRequest → Fields → ModelConfiguration
configured r reasoning = record {
  provider = r.provider;
  model = r.model;
  parameters = without ("reasoning" ∷ []) r.settings;
  reasoning = reasoning;
  token_budget = none;
}

-- `model_configuration`
unfoldable pub model_configuration : ManagedRequest → Result ModelConfiguration
model_configuration r = reasoning_of r >>= λ reasoning. ok (configured r reasoning)

abbrev or_empty : Result Fields → Fields
or_empty (ok d) = d
or_empty (err e) = end

-- the configuration of a request of which `model_configuration` returns
unfoldable pub settled_configuration : ManagedRequest → ModelConfiguration
settled_configuration r = configured r (or_empty (reasoning_of r))
