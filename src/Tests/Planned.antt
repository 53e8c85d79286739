-- ===== src/Tests/Planned.antt =====
-- A managed request with an instruction, a dependency of it, and a file that is deferred.
use llmcut.Prelude.{String, false, none, some, List, [], ◌∷◌, elem, lookup, ◌≤◌, ◌≡◌, ◌↔◌, refl}
use llmcut.Result.{Result, Error, ok, err}
use llmcut.Json.{end, pos}
use llmcut.Policy.{extreme, managed}
use llmcut.Model.{
  BlockKind, system, source_code, user, Retention, required, recoverable, superseded, kind_value,
  kind_eq, retention_eq, retention_value, quality_value, new_block, digest_bytes,
}
use llmcut.Model.Bound.{model_bound_json, model_bound_dict}
use llmcut.Store.Database.{select_content, insert_row, touch}
use llmcut.Store.Evidence
use llmcut.Store.Evidence.{EvidenceStore, put, fetch, persisted, redact_for_persistence}
use llmcut.Managed.Protocol.{
  Context, ManagedRequest, validate, is_identifier, to_block, model_configuration,
  settled_configuration, graph_of,
}
use llmcut.Managed.Protocol.Validity.{IsSoundContext, validate-IsSoundContext}
use llmcut.Managed.Protocol.Cycles.{Graph, reject_cycles}
use llmcut.Managed.Protocol.Cycles.Order.{Walk}
use llmcut.Managed.Protocol.Cycles.Fuel.{Cycle, reject_cycles_exact}
use llmcut.Managed.Planner.{ContextPlan, plan, baseline_request}
use llmcut.Managed.Planner.Choice.{active_ids, is_kept}
use llmcut.Managed.Planner.Retained.{plan_keeps, plan_readable, plan_smaller}
use llmcut.Tests.Fixtures.{world, bytes, new_store}

abbrev pub context : String → BlockKind → Retention → String → List String → Context
context id kind retention content dependencies = record {
  id = id;
  kind = kind;
  content = content;
  retention = retention;
  priority = pos 50;
  source_path = some "src";
  dependencies = dependencies;
  tool_call_id = none;
  revision = none;
  extensions = end;
}

abbrev policy : Context
policy = context "policy" system required "be exact" ("rules" ∷ [])

abbrev rules : Context
rules = context "rules" user superseded "the rules" []

abbrev file : Context
file = context "file" source_code recoverable "a long file that nobody named" []

abbrev pub asked : ManagedRequest
asked = record {
  provider = "openai";
  model = "m";
  task = "fix it";
  context = policy ∷ rules ∷ file ∷ [];
  tools = [];
  settings = end;
  execution = record {
    integration = managed;
    optimization = extreme;
    max_turns = pos 8;
    timeout_seconds = pos 1000;
    max_retrieval_bytes = pos 100;
    max_total_tokens = none;
  };
  schema_version = "1";
  extensions = end;
}

abbrev run : Result ContextPlan × EvidenceStore
run = plan world bytes asked none new_store

abbrev pub no_plan : ContextPlan
no_plan = record {
  request = baseline_request world asked;
  deferred = [];
  stable_prefix = "";
  dynamic_suffix = "";
  retrieval_operations = [];
  selected_tools = [];
  deferred_tools = [];
  decisions = [];
  baseline_tokens = 0;
  initial_tokens = 0;
  count_quality = "";
  stable_tokens = 0;
  dynamic_tokens = 0;
  fallback = none;
  evidence = [];
}

abbrev given : Result ContextPlan → ContextPlan
given (ok p) = p
given (err e) = no_plan

abbrev pub planned : ContextPlan
planned = given run.0

valid : validate world asked ≡ ok tt
unfolding validate llmcut.Managed.Protocol.check_settings llmcut.Managed.Protocol.check_contexts
    llmcut.Managed.Protocol.check_context is_identifier kind_eq llmcut.Managed.Protocol.Cycles.edges
    llmcut.Managed.Protocol.Cycles.search llmcut.Managed.Protocol.Cycles.visit reject_cycles
    llmcut.Managed.Protocol.check_tools
valid = refl

planned_ok : run.0 ≡ ok planned
unfolding plan validate llmcut.Managed.Protocol.check_settings
    llmcut.Managed.Protocol.check_contexts llmcut.Managed.Protocol.check_context is_identifier
    kind_eq llmcut.Managed.Protocol.Cycles.edges llmcut.Managed.Protocol.Cycles.search
    llmcut.Managed.Protocol.Cycles.visit reject_cycles llmcut.Managed.Protocol.check_tools
    llmcut.Managed.Planner.selection_of llmcut.Managed.Planner.conclude
    llmcut.Managed.Planner.decisions_of llmcut.Managed.Planner.operations
    llmcut.Managed.Planner.planned_request llmcut.Managed.Planner.select_tools
    llmcut.Managed.Planner.serialize_blocks llmcut.Managed.Planner.size_test
    llmcut.Managed.Planner.task_block llmcut.Managed.Planner.tool_block
    llmcut.Managed.Planner.Closure.close llmcut.Managed.Planner.Closure.rounds
    llmcut.Managed.Planner.Closure.scan llmcut.Managed.Planner.Closure.context_of
    llmcut.Managed.Planner.Closure.scan_dependencies llmcut.Managed.Planner.Choice.choose
    llmcut.Managed.Planner.Choice.choose_from llmcut.Managed.Planner.Choice.judge
    llmcut.Managed.Planner.Choice.open_calls llmcut.Managed.Planner.Choice.is_named
    llmcut.Managed.Planner.Choice.terms llmcut.Managed.Planner.Evidence.store_contexts
    llmcut.Managed.Planner.Evidence.store_from active_ids baseline_request model_configuration
    settled_configuration to_block model_bound_dict model_bound_json kind_value quality_value
    retention_eq retention_value digest_bytes new_block select_content insert_row touch fetch
    Evidence.get persisted put redact_for_persistence
planned_ok = refl

deferred_file : planned.deferred ≡ "file" ∷ []
unfolding plan validate llmcut.Managed.Protocol.check_settings
    llmcut.Managed.Protocol.check_contexts llmcut.Managed.Protocol.check_context is_identifier
    kind_eq llmcut.Managed.Protocol.Cycles.edges llmcut.Managed.Protocol.Cycles.search
    llmcut.Managed.Protocol.Cycles.visit reject_cycles llmcut.Managed.Protocol.check_tools
    llmcut.Managed.Planner.selection_of llmcut.Managed.Planner.conclude
    llmcut.Managed.Planner.decisions_of llmcut.Managed.Planner.operations
    llmcut.Managed.Planner.planned_request llmcut.Managed.Planner.select_tools
    llmcut.Managed.Planner.serialize_blocks llmcut.Managed.Planner.size_test
    llmcut.Managed.Planner.task_block llmcut.Managed.Planner.tool_block
    llmcut.Managed.Planner.Closure.close llmcut.Managed.Planner.Closure.rounds
    llmcut.Managed.Planner.Closure.scan llmcut.Managed.Planner.Closure.context_of
    llmcut.Managed.Planner.Closure.scan_dependencies llmcut.Managed.Planner.Choice.choose
    llmcut.Managed.Planner.Choice.choose_from llmcut.Managed.Planner.Choice.judge
    llmcut.Managed.Planner.Choice.open_calls llmcut.Managed.Planner.Choice.is_named
    llmcut.Managed.Planner.Choice.terms llmcut.Managed.Planner.Evidence.store_contexts
    llmcut.Managed.Planner.Evidence.store_from active_ids baseline_request model_configuration
    settled_configuration to_block model_bound_dict model_bound_json kind_value quality_value
    retention_eq retention_value digest_bytes new_block select_content insert_row touch fetch
    Evidence.get persisted put redact_for_persistence
deferred_file = refl

validate-IsSoundContext_example : IsSoundContext asked (policy ∷ []) rules
validate-IsSoundContext_example =
    validate-IsSoundContext world asked (policy ∷ []) rules (file ∷ []) valid refl

-- two nodes that need each other
abbrev ring : Graph
ring = ("a", "b" ∷ []) ∷ ("b", "a" ∷ []) ∷ []

reject_cycles_exact_example :
    ((reject_cycles ring ≡ ok tt) ↔ ((i : String) → ¬ (Walk ring i i)))
    × ((e : Error) → reject_cycles ring ≡ err e → Cycle ring)
reject_cycles_exact_example = reject_cycles_exact ring

plan_keeps_example : elem "policy" planned.deferred ≡ false
unfolding active_ids llmcut.Managed.Planner.Choice.open_calls kind_eq
plan_keeps_example =
    plan_keeps world bytes asked [] policy (rules ∷ file ∷ []) none new_store planned planned_ok
      refl refl

plan_readable_example :
    (d : String) × (lookup "file" planned.evidence ≡ some d)
    × ((Evidence.get world d run.1).0 ≡ ok "a long file that nobody named")
unfolding plan validate llmcut.Managed.Protocol.check_settings
    llmcut.Managed.Protocol.check_contexts llmcut.Managed.Protocol.check_context is_identifier
    kind_eq llmcut.Managed.Protocol.Cycles.edges llmcut.Managed.Protocol.Cycles.search
    llmcut.Managed.Protocol.Cycles.visit reject_cycles llmcut.Managed.Protocol.check_tools
    llmcut.Managed.Planner.selection_of llmcut.Managed.Planner.conclude
    llmcut.Managed.Planner.decisions_of llmcut.Managed.Planner.operations
    llmcut.Managed.Planner.planned_request llmcut.Managed.Planner.select_tools
    llmcut.Managed.Planner.serialize_blocks llmcut.Managed.Planner.size_test
    llmcut.Managed.Planner.task_block llmcut.Managed.Planner.tool_block
    llmcut.Managed.Planner.Closure.close llmcut.Managed.Planner.Closure.rounds
    llmcut.Managed.Planner.Closure.scan llmcut.Managed.Planner.Closure.context_of
    llmcut.Managed.Planner.Closure.scan_dependencies llmcut.Managed.Planner.Choice.choose
    llmcut.Managed.Planner.Choice.choose_from llmcut.Managed.Planner.Choice.judge
    llmcut.Managed.Planner.Choice.open_calls llmcut.Managed.Planner.Choice.is_named
    llmcut.Managed.Planner.Choice.terms llmcut.Managed.Planner.Evidence.store_contexts
    llmcut.Managed.Planner.Evidence.store_from active_ids baseline_request model_configuration
    settled_configuration to_block model_bound_dict model_bound_json kind_value quality_value
    retention_eq retention_value digest_bytes new_block select_content insert_row touch fetch
    Evidence.get persisted put redact_for_persistence
plan_readable_example =
    plan_readable world bytes asked (policy ∷ rules ∷ []) file [] none new_store planned planned_ok
      refl refl

plan_smaller_example :
    (planned.initial_tokens ≡ (bytes (model_bound_json world planned.request) (some "m")).value)
    × (planned.initial_tokens ≤ planned.baseline_tokens)
    × (planned.baseline_tokens
        ≡ (bytes (model_bound_json world (baseline_request world asked)) (some "m")).value)
plan_smaller_example = plan_smaller world bytes asked none new_store planned planned_ok
