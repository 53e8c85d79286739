-- ===== src/Managed/Runtime/State.antt =====
-- The records of src/llmcut/managed/runtime.py, and the local variables of `run` as one of them.
-- The asynchronous call of the provider is an answer by turn; a time is in thousandths of a second.
use llmcut.Prelude.{ℕ, String, Bool, Option, List}
use llmcut.Json.{Json, ℤ, Fields}
use llmcut.Json.Integers.{less}
use llmcut.Model.{CanonicalRequest}
use llmcut.Tokens.Registry.{CounterRegistry}
use llmcut.Tokens.Measurement.{TokenMeasurement}
use llmcut.Managed.Planner.{ContextPlan}
use llmcut.Managed.Retrieval.{Service}

pub record ManagedUsage : Type 0 where
  pub baseline_input_tokens : ℤ
  pub initial_input_tokens : ℤ
  pub retrieval_request_tokens : ℕ
  pub retrieval_result_tokens : ℕ
  pub continuation_input_tokens : ℤ
  pub output_tokens : ℤ
  pub reasoning_tokens : ℤ
  pub cached_tokens : ℤ
  pub total_input_tokens : ℤ
  pub count_quality : String

pub record RetrievalEvent : Type 0 where
  pub operation : String
  pub context_id : String
  pub source : String
  pub digest : String
  pub result_tokens : ℕ
  pub cached : Bool

pub record ManagedResult : Type 0 where
  pub run_id : String
  pub status : String
  pub provider : String
  pub model : String
  pub output : Json
  pub usage : ManagedUsage
  pub turns : ℕ
  pub retrievals : List RetrievalEvent
  pub fallback : Option String
  pub planned : ContextPlan
  pub planning_seconds : ℕ
  pub provider_seconds : ℕ
  pub payload_measurements : List TokenMeasurement

-- what comes of a call of the provider
pub data Outcome : Type 0 where
  answered : Fields → Outcome
  timed_out interrupted failed : Outcome

-- the provider by turn, and what the clock and the cancellation say: the time that planning took, the
-- time since the start at the start of a turn, and the time that the provider's call of a turn took
pub record Surroundings : Type 0 where
  pub provider_call : ℕ → Fields → Outcome
  pub planning_seconds : ℕ
  pub elapsed : ℕ → ℕ
  pub call_seconds : ℕ → ℕ
  pub is_cancelled : ℕ → Bool
  pub run_id : String
  pub now : ℕ → String

-- the runtime's registry, and the local variables of `run`
pub record Running : Type 0 where
  pub service : Service
  pub registry : CounterRegistry
  pub working : CanonicalRequest
  pub usage : ManagedUsage
  pub provider_seconds : ℕ
  pub events : List RetrievalEvent
  pub measurements : List TokenMeasurement
  pub repeated : List String

-- `ManagedResult.saving`
unfoldable pub saving : ManagedResult → Bool
saving r = less r.usage.total_input_tokens r.usage.baseline_input_tokens
