-- ===== src/Managed/Runtime.antt =====
-- src/llmcut/managed/runtime.py: a managed request is planned, and its provider is called until it
-- asks for no more evidence. `Calls` reads a response, `Blocks` makes what is added to the request,
-- `State` holds the records, and `Ask` and `Answer` are the two halves of a turn.
pub mod State
pub mod Calls
pub mod Blocks
pub mod Ask
pub mod Answer
pub mod Answered
pub mod Turns
pub mod Runs
use Prim.Native.String.{◌++◌ as join, len}
use llmcut.Prelude.{
  ℕ, zero, suc, ◌+◌, String, Bool, true, false, not, ◌&&◌, Option, none, some, List, [], ◌∷◌, ◌++◌,
  length, keep_if, sum_of, elem, is_empty, leb, ltb, if◌then◌else◌, ◌≟◌,
}
use llmcut.Result.{Error, Result, ok, err, execution_error, retrieval_error, type_error, cancelled}
use llmcut.Json.{Json, null, obj, int, ℤ, pos, negsuc, Fields, end, truthy}
use llmcut.Json.Integers.{◌+ℤ◌, less}
use llmcut.Exec.{Exec, ◌>>=◌, ◌>>◌, pure, raise, raise_if, lift, gets, modify}
use llmcut.World.{World}
use llmcut.Model.{ContextBlock, CanonicalRequest, tool_result, kind_eq}
use llmcut.Model.Codec.{to_dict, from_dict}
use llmcut.Store.Evidence.{EvidenceStore}
use llmcut.Tokens.{TokenCounter}
use llmcut.Tokens.Registry.{CounterRegistry}
use llmcut.Tokens.Measurement.{TokenMeasurement, count_payload}
use llmcut.Adapters.{ProviderAdapter, ProviderUsage}
use llmcut.Adapters.OpenAi.{openai_adapter, chat}
use llmcut.Adapters.Anthropic.{anthropic_adapter}
use llmcut.Adapters.Gemini.{gemini_adapter}
use llmcut.Managed.Protocol.{ManagedRequest}
use llmcut.Managed.Planner.{ContextPlan, plan}
use llmcut.Managed.Retrieval
use llmcut.Managed.Retrieval.{RetrievalResult, Service, exceeds}
use llmcut.Managed.Runtime.Calls.{Call, tool_calls, output_of}
use llmcut.Managed.Runtime.Blocks.{add_retrieval_tools, assistant_block, retrieval_block}
use llmcut.Managed.Runtime.State.{
  ManagedUsage, RetrievalEvent, ManagedResult, Outcome, answered, timed_out, interrupted, failed,
  Surroundings, Running, saving,
}
use llmcut.Managed.Runtime.Ask.{adapter_of, check_bounds, response_of, measure, account, ask}
use llmcut.Managed.Runtime.Answer.{answer_call, answer_calls}

abbrev pub is_over : ℤ → Option ℕ → Bool
is_over total none = false
is_over total (some bound) = less (pos bound) total

-- the result of a run that is over
abbrev pub completed :
    ManagedRequest → ContextPlan → Surroundings → ℕ → Json → Running → ManagedResult
completed request p around turn output s = record {
  run_id = around.run_id;
  status = "completed";
  provider = request.provider;
  model = request.model;
  output = output;
  usage = s.usage;
  turns = turn;
  retrievals = s.events;
  fallback = p.fallback;
  planned = p;
  planning_seconds = around.planning_seconds;
  provider_seconds = s.provider_seconds;
  payload_measurements = s.measurements;
}

unfoldable pub finish :
    World → ManagedRequest → ContextPlan → Surroundings → ℕ → Fields → Exec Running ManagedResult
finish w request p around turn response = do
  output ← lift (output_of w request.provider response)
  gets (completed request p around turn output)

-- a turn that asks for evidence
unfoldable pub continue_with :
    World → TokenCounter → ManagedRequest → ContextPlan → ℕ → Fields → List Call → Exec Running Unit
continue_with w counter request p turn response calls = do
  block ← lift (assistant_block w request.provider response turn)
  modify (λ s. record s { working = record s.working { blocks = s.working.blocks ++ block ∷ [] } })
  answer_calls w counter request p calls
  total ← gets (λ (s : Running). s.usage.total_input_tokens)
  raise_if (is_over total request.execution.max_total_tokens)
      (execution_error "managed execution token bound exceeded")

-- what a turn does with the calls of its response
unfoldable pub act :
    World
    → TokenCounter
    → ManagedRequest
    → ContextPlan
    → Surroundings
    → ℕ
    → Exec Running ManagedResult
    → Fields × List Call
    → Exec Running ManagedResult
act w counter request p around turn rest (response, []) = finish w request p around turn response
act w counter request p around turn rest (response, c ∷ cs) =
    continue_with w counter request p turn response (c ∷ cs) >>= λ _. rest

-- the loop `for turn in range(1, max_turns + 1)`, by the turns that are left
unfoldable pub turns_from :
    World
    → TokenCounter
    → ManagedRequest
    → ContextPlan
    → Surroundings
    → ℕ
    → ℕ
    → Exec Running ManagedResult
turns_from w counter request p around zero turn =
    raise (execution_error "managed execution turn limit reached")
turns_from w counter request p around (suc left) turn =
    ask w request around turn
    >>= act w counter request p around turn (turns_from w counter request p around left (suc turn))

abbrev pub turn_limit : ℤ → ℕ
turn_limit (pos n) = n
turn_limit (negsuc n) = 0

abbrev pub first_usage : ContextPlan → ManagedUsage
first_usage p = record {
  baseline_input_tokens = pos p.baseline_tokens;
  initial_input_tokens = pos p.initial_tokens;
  retrieval_request_tokens = 0;
  retrieval_result_tokens = 0;
  continuation_input_tokens = pos 0;
  output_tokens = pos 0;
  reasoning_tokens = pos 0;
  cached_tokens = pos 0;
  total_input_tokens = pos p.initial_tokens;
  count_quality = p.count_quality;
}

-- the local variables at the start of the loop
abbrev pub started :
    World
    → ManagedRequest
    → ContextPlan
    → CanonicalRequest
    → EvidenceStore
    → CounterRegistry
    → Running
started w request p copy store registry = record {
  service = record { store = store; cache = [] };
  registry = registry;
  working = add_retrieval_tools w copy p.retrieval_operations request.provider;
  usage = first_usage p;
  provider_seconds = 0;
  events = [];
  measurements = [];
  repeated = [];
}

-- the runtime itself: its store and its registry
pub record Runtime : Type 0 where
  pub evidence : EvidenceStore
  pub registry : CounterRegistry

abbrev pub in_evidence : {A : Type 0} → Exec EvidenceStore A → Exec Runtime A
in_evidence m s = let (a, store) = m s.evidence in (a, record s { evidence = store })

-- the loop in the runtime: what remains of its state is the store and the registry
abbrev pub in_run :
    {A : Type 0}
    → World
    → ManagedRequest
    → ContextPlan
    → CanonicalRequest
    → Exec Running A
    → Exec Runtime A
in_run w request p copy m s =
    let (a, t) = m (started w request p copy s.evidence s.registry) in
    (a, record { evidence = t.service.store; registry = t.registry })

abbrev dry_result : ManagedRequest → ContextPlan → Surroundings → ManagedResult
dry_result request p around = record {
  run_id = around.run_id;
  status = "planned";
  provider = request.provider;
  model = request.model;
  output = null;
  usage = first_usage p;
  turns = 0;
  retrievals = [];
  fallback = p.fallback;
  planned = p;
  planning_seconds = around.planning_seconds;
  provider_seconds = 0;
  payload_measurements = [];
}

-- `run`, whether a provider's transport is configured or not
unfoldable pub run :
    World → TokenCounter → ManagedRequest → Surroundings → Bool → Bool → Exec Runtime ManagedResult
run w counter request around is_configured dry_run = do
  p ← in_evidence (plan w counter request none)
  elim dry_run [
    | true ↦ pure (dry_result request p around)
    | false ↦ elim is_configured [
      | false ↦ raise (execution_error "managed execution requires a configured provider transport")
      | true ↦ do
        copy ← lift (from_dict w (to_dict p.request))
        in_run w request p copy
            (turns_from w counter request p around (turn_limit request.execution.max_turns) 1)
    ]
  ]
