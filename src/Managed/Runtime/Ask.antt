-- ===== src/Managed/Runtime/Ask.antt =====
-- One turn of the loop of `ManagedRuntime.run` in src/llmcut/managed/runtime.py, up to the calls that the
-- response makes.
use llmcut.Prelude.{ℕ, ◌+◌, String, true, false, not, List, [], ◌∷◌, ◌++◌, leb, if◌then◌else◌, ◌≟◌}
use llmcut.Result.{Result, ok, err, execution_error, type_error, cancelled}
use llmcut.Json.{Json, int, boolean, ℤ, pos, Fields, truthy}
use llmcut.Json.Integers.{◌+ℤ◌, less}
use llmcut.Exec.{Exec, ◌>>=◌, ◌>>◌, pure, lift, gets, modify}
use llmcut.World.{World}
use llmcut.Tokens.Measurement.{TokenMeasurement, count_payload}
use llmcut.Adapters.{ProviderAdapter}
use llmcut.Adapters.OpenAi.{openai_adapter, chat}
use llmcut.Adapters.Anthropic.{anthropic_adapter}
use llmcut.Adapters.Gemini.{gemini_adapter}
use llmcut.Managed.Protocol.{ManagedRequest}
use llmcut.Managed.Runtime.Calls.{Call, tool_calls}
use llmcut.Managed.Runtime.State.{
  ManagedUsage, Outcome, answered, timed_out, interrupted, failed, Surroundings, Running,
}

-- `_adapter`
unfoldable pub adapter_of : World → String → Result ProviderAdapter
adapter_of w provider =
    if provider ≟ "anthropic"
    then ok (anthropic_adapter w)
    else if provider ≟ "gemini"
    then ok (gemini_adapter w)
    else if provider ≟ "openai"
    then ok (openai_adapter w chat)
    else err (execution_error "unsupported configured provider")

-- `_check_bounds`
unfoldable pub check_bounds : ManagedRequest → Surroundings → ℕ → Result (Unit {0})
check_bounds request around turn =
    if around.is_cancelled turn
    then err cancelled
    else if not (less (pos (around.elapsed turn)) request.execution.timeout_seconds)
    then err (execution_error "managed execution timed out")
    else ok tt

-- what the `try` makes of the outcome
unfoldable pub response_of : Outcome → Result Fields
response_of (answered response) = ok response
response_of timed_out = err (execution_error "managed execution timed out")
response_of interrupted = err cancelled
response_of failed = err (execution_error "managed provider request failed")

-- `count += value`: a Boolean counts as 0 or 1, and a value with no sum with an integer is a `TypeError`. The
-- usage is in integers: a provider that reports a fraction is not modelled.
abbrev pub counted : Json → Result ℤ
counted (int n) = ok n
counted (boolean true) = ok (pos 1)
counted (boolean false) = ok (pos 0)
counted _ = err (type_error "unsupported operand")

-- `provider_usage["input_tokens"] or payload_measurement.value`
abbrev pub input_count : Json → ℕ → Result ℤ
input_count v measured = if truthy v then counted v else ok (pos measured)

-- the input of a turn: the first one is the initial one
abbrev pub add_input : ℕ → ℤ → ManagedUsage → ManagedUsage
add_input turn n u =
    let initial = if leb turn 1 then n else u.initial_input_tokens in
    let continued =
      if leb turn 1 then u.continuation_input_tokens else u.continuation_input_tokens +ℤ n in
    record u {
      initial_input_tokens = initial;
      continuation_input_tokens = continued;
      total_input_tokens = initial +ℤ continued;
    }

abbrev pub add_output : ℤ → ℤ → ℤ → ManagedUsage → ManagedUsage
add_output output reasoning cached u = record u {
  output_tokens = u.output_tokens +ℤ output;
  reasoning_tokens = u.reasoning_tokens +ℤ reasoning;
  cached_tokens = u.cached_tokens +ℤ cached;
}

-- `payload_measurements.append(payload_measurement)`
abbrev pub append : Result TokenMeasurement → Exec Running TokenMeasurement
append (err e) s = (err e, s)
append (ok m) s = (ok m, record s { measurements = s.measurements ++ m ∷ [] })

-- `count_payload` with the runtime's registry, its measurement appended
unfoldable pub measure : World → ManagedRequest → String → Fields → Exec Running TokenMeasurement
measure w request now native s =
    let (r, registry) = count_payload w request.provider request.model native now s.registry in
    append r (record s { registry = registry })

-- the time of the provider's call, and the usage that its response reports
unfoldable pub account :
    ProviderAdapter → Surroundings → ℕ → TokenMeasurement → Fields → Exec Running Unit
account adapter around turn measured response = do
  modify (λ s. record s { provider_seconds = s.provider_seconds + around.call_seconds turn })
  reported ← lift (adapter.usage response)
  input ← lift (input_count reported.input_tokens measured.value)
  modify (λ s. record s { usage = add_input turn input s.usage })
  output ← lift (counted reported.output_tokens)
  reasoning ← lift (counted reported.reasoning_tokens)
  cached ← lift (counted reported.cached_tokens)
  modify (λ s. record s { usage = add_output output reasoning cached s.usage })

-- a turn up to its calls
unfoldable pub ask : World → ManagedRequest → Surroundings → ℕ → Exec Running (Fields × List Call)
ask w request around turn = do
  lift (check_bounds request around turn)
  adapter ← lift (adapter_of w request.provider)
  working ← gets (λ (s : Running). s.working)
  native ← lift (adapter.to_native working)
  measured ← measure w request (around.now turn) native
  response ← lift (response_of (around.provider_call turn native))
  account adapter around turn measured response
  calls ← lift (tool_calls w request.provider response)
  pure (response, calls)
