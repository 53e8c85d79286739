-- ===== src/Tests/Running.antt =====
-- A run whose provider answers at once.
use llmcut.Prelude.{ℕ, true, false, none, List, [], ◌∷◌, length, ◌≡◌, ◌⊎◌, ◌≤◌, refl, All, elem}
use llmcut.Result.{Result, ok, err, execution_error}
use llmcut.Json.{str, arr, obj, null, nil, cons, Fields, field, end, pos}
use llmcut.Json.Integers.{◌+ℤ◌, less}
use llmcut.World.{World}
use llmcut.Managed.Runtime.State.{Running, Outcome, answered, Surroundings, ManagedResult}
use llmcut.Managed.Runtime.Calls.{Call}
use llmcut.Managed.Runtime.Answer.{answer_call, answer_calls, volume, call_key}
use llmcut.Managed.Runtime.Answered.{IsDistinct, tallies, answer_calls_lem}
use llmcut.Model.{digest_bytes}
use llmcut.Store.Database.{select_content, touch}
use llmcut.Store.Evidence
use llmcut.Store.Evidence.{fetch}
use llmcut.Managed.Planner.Closure.{context_of}
use llmcut.Managed.Retrieval.{
  exceeds, is_secret, check_revision, operate, allowed, read_context, execute_fresh, answer,
  execute,
}
use llmcut.Managed.Retrieval.Operations.{required_string}
use llmcut.Tests.Retrieved.{plan, service, arguments}
use llmcut.Managed.Runtime.{Runtime, run, first_usage}
use llmcut.Managed.Runtime.Runs.{run-IsWithin}
use llmcut.Tests.Fixtures.{world, bytes, new_store, request}
use llmcut.Tests.Planned.{asked, planned}

abbrev choice : Fields → Fields
choice message = field "choices" (arr (cons (obj (field "message" (obj message) end)) nil)) end

abbrev provider : ℕ → Fields → Outcome
provider turn native = answered (choice (field "content" (str "done") end))

abbrev around : Surroundings
around = record {
  provider_call = provider;
  planning_seconds = 3;
  elapsed = λ turn. turn;
  call_seconds = λ turn. 2;
  is_cancelled = λ turn. false;
  run_id = "run";
  now = λ turn. "now";
}

-- a world that writes every value the same way
abbrev quiet : World
quiet = record world { dumps = λ v. "{}"; dumps_native = λ v. "{}"; dumps_spaced = λ v. "{}" }

abbrev runtime : Runtime
runtime = record {
  evidence = new_store;
  registry = record {
    estimate = bytes;
    endpoints = [];
    tokenizers = [];
    compatible = [];
    cache = [];
    version = "0";
  };
}

abbrev ran : Result ManagedResult × Runtime
ran = run quiet bytes asked around true false runtime

abbrev nothing : ManagedResult
nothing = record {
  run_id = "";
  status = "";
  provider = "";
  model = "";
  output = null;
  usage = first_usage planned;
  turns = 0;
  retrievals = [];
  fallback = none;
  planned = planned;
  planning_seconds = 0;
  provider_seconds = 0;
  payload_measurements = [];
}

abbrev given : Result ManagedResult → ManagedResult
given (ok r) = r
given (err e) = nothing

ran_ok : ran.0 ≡ ok (given ran.0)
unfolding llmcut.Model.post_init llmcut.Model.new_block llmcut.Model.kind_of
    llmcut.Model.retention_of llmcut.Model.kind_eq llmcut.Model.retention_eq
    llmcut.Model.Codec.to_dict llmcut.Model.Codec.from_dict llmcut.Model.Bound.model_bound_json
    llmcut.Store.Evidence.put llmcut.Store.Evidence.get llmcut.Managed.Protocol.to_block
    llmcut.Managed.Protocol.check_context llmcut.Managed.Protocol.check_contexts
    llmcut.Managed.Protocol.check_tools llmcut.Managed.Protocol.check_settings
    llmcut.Managed.Protocol.validate llmcut.Managed.Protocol.model_configuration
    llmcut.Managed.Protocol.settled_configuration llmcut.Managed.Protocol.Cycles.reject_cycles
    llmcut.Managed.Planner.operations llmcut.Managed.Planner.task_block
    llmcut.Managed.Planner.baseline_request llmcut.Managed.Planner.decisions_of
    llmcut.Managed.Planner.size_test llmcut.Managed.Planner.conclude
    llmcut.Managed.Planner.selection_of llmcut.Managed.Planner.plan
    llmcut.Managed.Planner.Choice.terms llmcut.Managed.Planner.Choice.open_calls
    llmcut.Managed.Planner.Choice.active_ids llmcut.Managed.Planner.Choice.is_named
    llmcut.Managed.Planner.Choice.judge llmcut.Managed.Planner.Choice.choose_from
    llmcut.Managed.Planner.Choice.choose llmcut.Managed.Planner.Closure.context_of
    llmcut.Managed.Planner.Closure.scan_dependencies llmcut.Managed.Planner.Closure.scan
    llmcut.Managed.Planner.Closure.rounds llmcut.Managed.Planner.Closure.close
    llmcut.Managed.Planner.Evidence.store_from llmcut.Managed.Planner.Evidence.store_contexts
    llmcut.Adapters.Messages.loaded_tools llmcut.Adapters.OpenAi.openai_to_native
    llmcut.Adapters.OpenAi.openai_usage llmcut.Managed.Runtime.finish llmcut.Managed.Runtime.act
    llmcut.Managed.Runtime.turns_from llmcut.Managed.Runtime.run
    llmcut.Managed.Runtime.Ask.adapter_of llmcut.Managed.Runtime.Ask.check_bounds
    llmcut.Managed.Runtime.Ask.response_of llmcut.Managed.Runtime.Ask.measure
    llmcut.Managed.Runtime.Ask.account llmcut.Managed.Runtime.Ask.ask
    llmcut.Managed.Runtime.Calls.openai_message llmcut.Managed.Runtime.Calls.openai_calls
    llmcut.Managed.Runtime.Calls.native_calls llmcut.Managed.Runtime.Calls.tool_calls
    llmcut.Managed.Runtime.Calls.output_of llmcut.Managed.Runtime.Blocks.add_retrieval_tools
    llmcut.Managed.Protocol.is_identifier llmcut.Tokens.Measurement.count_payload
    llmcut.Tokens.Measurement.measured llmcut.Tokens.Registry.count_transport
    llmcut.Tokens.Registry.fresh_count llmcut.Tokens.Registry.provider_count
    llmcut.Tokens.Registry.local_count llmcut.Tokens.Registry.tokenizer_for
ran_ok = refl

run-IsWithin_example :
    let r = given ran.0 in
    (r.status ≡ "completed")
    × (1 ≤ r.turns)
    × (less (pos 8) (pos r.turns) ≡ false)
    × (length r.payload_measurements ≡ r.turns)
    × (r.usage.total_input_tokens
        ≡ r.usage.initial_input_tokens +ℤ r.usage.continuation_input_tokens)
run-IsWithin_example = run-IsWithin quiet bytes asked around true runtime (given ran.0) ran_ok

-- the same run, where the provider has asked for a file
abbrev read_file : Call
read_file = record { call_id = "call"; operation = "evidence.get"; arguments = arguments }

abbrev running : Running
running = record {
  service = service;
  registry = runtime.registry;
  working = record request { blocks = [] };
  usage = first_usage planned;
  provider_seconds = 0;
  events = [];
  measurements = [];
  repeated = [];
}

abbrev answer_of : List Call → Result (Unit {0}) × Running
answer_of calls = answer_calls world bytes asked plan calls running

answered_ok : (answer_of (read_file ∷ [])).0 ≡ ok tt
unfolding answer_calls answer_call volume execute answer execute_fresh allowed read_context operate
    is_secret check_revision required_string context_of digest_bytes select_content touch fetch
    Evidence.get llmcut.Model.kind_eq llmcut.Managed.Runtime.Blocks.retrieval_block
    llmcut.Model.new_block
answered_ok = refl

-- to ask for it twice is an error
answered_twice :
    (answer_of (read_file ∷ read_file ∷ [])).0
    ≡ err (execution_error "repeated identical retrieval request detected")
unfolding answer_calls answer_call volume execute answer execute_fresh allowed read_context operate
    is_secret check_revision required_string context_of digest_bytes select_content touch fetch
    Evidence.get llmcut.Model.kind_eq llmcut.Managed.Runtime.Blocks.retrieval_block
    llmcut.Model.new_block
answered_twice = refl

answer_calls_lem_example :
    let s' = (answer_of (read_file ∷ [])).1 in
    IsDistinct ("evidence.get:{id:'file'}" ∷ [])
    × All (λ (c : Call). elem (call_key world c) [] ≡ false) (read_file ∷ [])
    × (tallies s' ≡ tallies running)
    × ((read_file ∷ [] ≡ []) ⊎ (exceeds (volume s'.working.blocks) (pos 100) ≡ false))
    × (length s'.events ≡ 1)
answer_calls_lem_example =
    answer_calls_lem world bytes asked plan (read_file ∷ []) running answered_ok
