-- ===== src/Managed/Planner.antt =====
-- src/llmcut/managed/planner.py: which contexts go into the first request, and which are deferred
-- behind evidence. `Choice` has the first loop, `Closure` the dependencies, `Evidence` the loop that
-- stores the contexts, and this module the plan itself.
pub mod Choice
pub mod Closure
pub mod Evidence
pub mod Retained
use llmcut.Prelude.{
  ℕ, String, Bool, true, false, not, ◌||◌, ◌&&◌, Option, none, some, List, [], ◌∷◌, ◌++◌, map, any,
  keep_if, length, lookup, elem, leb, if◌then◌else◌,
}
use Prim.Native.String.{◌++◌ as join}
use llmcut.Result.{Result, ok, ◌>>=◌, or_raise, key_error}
use llmcut.Json.{Json, str, arr, obj, Items, nil, cons, Fields, field, end, ℤ}
use llmcut.Exec.{Exec, lift, ◌>>=◌ as bind}
use llmcut.World.{World}
use llmcut.Model.{
  digest_bytes, BlockKind, system, developer, source_code, test, configuration, command_output,
  repository_map, repository, current_task, tool_definition, Retention, stable, required,
  recoverable, retention_eq, kind_eq, ContextBlock, CanonicalRequest, new_block, quality_value,
  TokenCount,
}
use llmcut.Model.Bound.{model_bound_json, publics}
use llmcut.Policy.{OptimizationMode}
use llmcut.Store.Evidence.{EvidenceStore}
use llmcut.Tokens.{TokenCounter}
use llmcut.Managed.Protocol.{
  Context, ToolDefinition, ManagedRequest, to_block, validate, model_configuration,
  settled_configuration,
}
use llmcut.Managed.Planner.Choice.{Reason, Selection, terms, choose, active_ids}
use llmcut.Managed.Planner.Closure.{context_of, close}
use llmcut.Managed.Planner.Evidence.{Stored, store_contexts}

pub record PlanDecision : Type 0 where
  pub context_id : String
  pub included : Bool
  pub reason : String
  pub confidence : ℕ

pub record ContextPlan : Type 0 where
  pub request : CanonicalRequest
  pub deferred : List String
  pub stable_prefix : String
  pub dynamic_suffix : String
  pub retrieval_operations : List String
  pub selected_tools : List String
  pub deferred_tools : List String
  pub decisions : List PlanDecision
  pub baseline_tokens : ℕ
  pub initial_tokens : ℕ
  pub count_quality : String
  pub stable_tokens : ℕ
  pub dynamic_tokens : ℕ
  pub fallback : Option String
  pub evidence : List (String × String)

-- `ContextPlan.stable_prefix_digest`
abbrev pub prefix_digest : World → ContextPlan → String
prefix_digest w p = digest_bytes w p.stable_prefix

-- `ToolDefinition.transport_dict`, as compact JSON
abbrev pub tool_text : World → ToolDefinition → String
tool_text w t = w.dumps (
    obj (
      field "name" (str t.name)
        (field "description" (str t.description) (field "input_schema" t.input_schema end))))

-- `_tool_block`
unfoldable pub tool_block : World → ToolDefinition → ContextBlock
tool_block w t =
    new_block w (join "tool:" t.name) tool_definition (tool_text w t) "managed:tools"
      (field "category" (str t.category) end) (if t.required_tool then required else recoverable)

-- the task's words name a tool
abbrev is_named : World → List String → ToolDefinition → Bool
is_named w words t = any (λ x. elem x (terms w t.name) || elem x (terms w t.category)) words

abbrev is_chosen : World → String → ToolDefinition → Bool
is_chosen w task t = t.required_tool || is_named w (terms w task) t

-- `_select_tools`. Names are unique, so that a tool that is chosen is not among those deferred; where
-- none is chosen none is required either.
unfoldable pub select_tools :
    World → List ToolDefinition → String → List ToolDefinition × List ToolDefinition
select_tools w tools task =
    if leb (length tools) 8
    then (tools, [])
    else (keep_if (is_chosen w task) tools, keep_if (λ t. not (is_chosen w task t)) tools)

abbrev has_kind : List BlockKind → Context → Bool
has_kind kinds c = any (kind_eq c.kind) kinds

-- `_operations`, in the order of `sorted`
unfoldable pub operations : List Context → Bool → List String
operations deferred tools_deferred =
    let some_deferred = not (leb (length deferred) 0) in
    let code = any (has_kind (source_code ∷ test ∷ configuration ∷ [])) deferred in
    let logs = any (has_kind (command_output ∷ [])) deferred in
    let maps = any (has_kind (repository_map ∷ repository ∷ [])) deferred in
    map (λ (e : String × Bool). e.0)
      (keep_if (λ (e : String × Bool). e.1)
        (("context.expand", some_deferred)
          ∷ ("dependency.get", code)
          ∷ ("evidence.get", some_deferred)
          ∷ ("log.range", logs)
          ∷ ("log.search", logs)
          ∷ ("repository.map", maps)
          ∷ ("source.range", code)
          ∷ ("symbol.get", code)
          ∷ ("tool.discover", tools_deferred)
          ∷ []))

abbrev tool_items : List ContextBlock → Items
tool_items [] = nil
tool_items (t ∷ ts) =
    cons (obj (field "id" (str t.id) (field "content" (str t.content) end))) (tool_items ts)

-- `_serialize_blocks`
unfoldable pub serialize_blocks : World → List ContextBlock → List ContextBlock → String
serialize_blocks w blocks tools =
    w.dumps
      (obj (field "blocks" (arr (publics blocks)) (field "tools" (arr (tool_items tools)) end)))

-- a block of the stable prefix; identifiers are unique, so that the others are those that fail it
abbrev is_stable : ContextBlock → Bool
is_stable b = retention_eq b.retention stable || kind_eq b.kind system || kind_eq b.kind developer

-- the block of the current task
unfoldable pub task_block : World → String → ContextBlock
task_block w task = to_block w (record {
  id = "current-task";
  kind = current_task;
  content = task;
  retention = required;
  priority = ℤ.pos 100;
  source_path = some "managed:task";
  dependencies = [];
  tool_call_id = none;
  revision = none;
  extensions = end;
})

abbrev canonical : List ContextBlock → ManagedRequest → List ContextBlock → CanonicalRequest
canonical blocks r tools = record {
  blocks = blocks;
  model = settled_configuration r;
  tools = tools;
  cache = end;
  passthrough = end;
  request_id = none;
}

-- the request with every context and tool
unfoldable pub baseline_request : World → ManagedRequest → CanonicalRequest
baseline_request w r =
    canonical (map (to_block w) r.context ++ task_block w r.task ∷ []) r
      (map (tool_block w) r.tools)

-- the request with what was selected
unfoldable pub planned_request :
    World → ManagedRequest → List ContextBlock → List ToolDefinition → CanonicalRequest
planned_request w r blocks tools =
    canonical (blocks ++ task_block w r.task ∷ []) r (map (tool_block w) tools)

abbrev decision_of : Selection → Context → Result PlanDecision
decision_of s c = do
  reason ← or_raise (lookup c.id s.reasons) (key_error "reasons")
  ok (record {
    context_id = c.id;
    included = elem c.id s.selected;
    reason = reason.text;
    confidence = reason.confidence;
  })

unfoldable pub decisions_of : Selection → List Context → Result (List PlanDecision)
decisions_of s [] = ok []
decisions_of s (c ∷ cs) = do d ← decision_of s c; ds ← decisions_of s cs; ok (d ∷ ds)

-- what the size test leaves of the plan: request, selection, tools, tokens, reason
pub record Sized : Type 0 where
  pub request : CanonicalRequest
  pub selection : Selection
  pub tools : List ToolDefinition
  pub deferred_tools : List ToolDefinition
  pub count : TokenCount
  pub fallback : Option String

unfoldable pub size_test : World → TokenCounter → ManagedRequest → Stored → Sized
size_test w counter r stored =
    let (tools, deferred_tools) = select_tools w r.tools r.task in
    let planned = planned_request w r stored.blocks tools in
    let baseline = baseline_request w r in
    let initial_count = counter (model_bound_json w planned) (some r.model) in
    let baseline_count = counter (model_bound_json w baseline) (some r.model) in
    if leb baseline_count.value initial_count.value
    then record {
      request = baseline;
      selection = record stored.selection { selected = map (λ (c : Context). c.id) r.context };
      tools = r.tools;
      deferred_tools = [];
      count = baseline_count;
      fallback = some "baseline request is not larger than managed plan";
    }
    else record {
      request = planned;
      selection = stored.selection;
      tools = tools;
      deferred_tools = deferred_tools;
      count = initial_count;
      fallback = none;
    }

abbrev is_deferred : Selection → Context → Bool
is_deferred s c = not (elem c.id s.selected)

-- what is left once the contexts are stored; reading the request's reasoning settings may raise
unfoldable pub conclude : World → TokenCounter → ManagedRequest → Stored → Result ContextPlan
conclude w counter r stored =
    let (tools, _) = select_tools w r.tools r.task in
    let blocks = stored.blocks ++ task_block w r.task ∷ [] in
    let prefix = serialize_blocks w (keep_if is_stable blocks) (map (tool_block w) tools) in
    let suffix = serialize_blocks w (keep_if (λ b. not (is_stable b)) blocks) [] in
    let sized = size_test w counter r stored in
    let deferred = keep_if (is_deferred sized.selection) r.context in
    model_configuration r >>= λ _. decisions_of sized.selection r.context >>= λ decisions.
    ok (record {
      request = sized.request;
      deferred = map (λ (c : Context). c.id) deferred;
      stable_prefix = prefix;
      dynamic_suffix = suffix;
      retrieval_operations = operations deferred (not (leb (length sized.deferred_tools) 0));
      selected_tools = map (λ (t : ToolDefinition). t.name) sized.tools;
      deferred_tools = map (λ (t : ToolDefinition). t.name) sized.deferred_tools;
      decisions = decisions;
      baseline_tokens = (counter (model_bound_json w (baseline_request w r)) (some r.model)).value;
      initial_tokens = sized.count.value;
      count_quality = quality_value sized.count.quality;
      stable_tokens = (counter prefix (some r.model)).value;
      dynamic_tokens = (counter suffix (some r.model)).value;
      fallback = sized.fallback;
      evidence = stored.evidence;
    })

abbrev or_mode : Option OptimizationMode → OptimizationMode → OptimizationMode
or_mode none m = m
or_mode (some m) _ = m

-- the selection by the first loop and its closure under dependencies
unfoldable pub selection_of : World → ManagedRequest → OptimizationMode → Result Selection
selection_of w r mode =
    close r.context (choose w mode (terms w r.task) (active_ids r.context) r.context)

-- `ContextPlanner.plan`
unfoldable pub plan :
    World → TokenCounter → ManagedRequest → Option OptimizationMode → Exec EvidenceStore ContextPlan
plan w counter r mode = bind (lift (validate w r)) λ _.
    bind (lift (selection_of w r (or_mode mode r.execution.optimization))) λ selection.
      bind (store_contexts w r.context selection) λ stored. lift (conclude w counter r stored)
