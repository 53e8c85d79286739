-- ===== src/Managed/Runtime/Answer.antt =====
-- The loop of `ManagedRuntime.run` in src/llmcut/managed/runtime.py over the calls of a response.
use Prim.Native.String.{◌++◌ as join, len}
use llmcut.Prelude.{ℕ, suc, ◌+◌, String, some, List, [], ◌∷◌, ◌++◌, length, keep_if, sum_of, elem}
use llmcut.Result.{Error, ok, err, execution_error, retrieval_error}
use llmcut.Json.{obj}
use llmcut.Exec.{Exec, ◌>>=◌, ◌>>◌, pure, raise_if, gets, modify}
use llmcut.World.{World}
use llmcut.Model.{ContextBlock, tool_result, kind_eq}
use llmcut.Tokens.{TokenCounter}
use llmcut.Managed.Protocol.{ManagedRequest}
use llmcut.Managed.Planner.{ContextPlan}
use llmcut.Managed.Retrieval
use llmcut.Managed.Retrieval.{RetrievalResult, Service, exceeds}
use llmcut.Managed.Runtime.Calls.{Call}
use llmcut.Managed.Runtime.Blocks.{retrieval_block}
use llmcut.Managed.Runtime.State.{RetrievalEvent, Running}

abbrev pub in_service : {A : Type 0} → Exec Service A → Exec Running A
in_service m s = let (a, service) = m s.service in (a, record s { service = service })

-- the bytes of all tool results in the request
unfoldable pub volume : List ContextBlock → ℕ
volume blocks =
    sum_of (λ (b : ContextBlock). len b.content)
      (keep_if (λ (b : ContextBlock). kind_eq b.kind tool_result) blocks)

-- a `RetrievalError` becomes an `ExecutionError`
abbrev reraised : Error → Error
reraised (retrieval_error m) = execution_error "invalid managed retrieval"
reraised e = e

abbrev pub reraise : {A : Type 0} → Exec Service A → Exec Service A
reraise m s = let (r, t) = m s in (elim r [ ok a ↦ ok a | err e ↦ err (reraised e) ], t)

abbrev pub event_of : RetrievalResult → ℕ → RetrievalEvent
event_of r tokens = record {
  operation = r.operation;
  context_id = r.context_id;
  source = r.source;
  digest = r.digest;
  result_tokens = tokens;
  cached = r.cached;
}

-- what a result adds to the run
abbrev pub add_result : World → ManagedRequest → Call → RetrievalResult → ℕ → Running → Running
add_result w request c result tokens s = record s {
  usage = record s.usage { retrieval_result_tokens = s.usage.retrieval_result_tokens + tokens };
  events = s.events ++ event_of result tokens ∷ [];
  working = record s.working {
    blocks =
        s.working.blocks
        ++ retrieval_block w request.provider result c.call_id c.operation (suc (length s.events))
          ∷ [];
  };
}

abbrev pub call_key : World → Call → String
call_key w c = join c.operation (join ":" (w.dumps (obj c.arguments)))

-- the body of the loop over the calls
unfoldable pub answer_call :
    World → TokenCounter → ManagedRequest → ContextPlan → Call → Exec Running Unit
answer_call w counter request p c = do
  seen ← gets (λ (s : Running). elem (call_key w c) s.repeated)
  raise_if seen (execution_error "repeated identical retrieval request detected")
  modify (λ s. record s {
    repeated = s.repeated ++ call_key w c ∷ [];
    usage = record s.usage {
      retrieval_request_tokens =
          s.usage.retrieval_request_tokens + (counter (call_key w c) (some request.model)).value;
    };
  })
  result ← in_service (reraise (Retrieval.execute w request p c.operation c.arguments))
  modify (add_result w request c result (counter result.content (some request.model)).value)
  bytes ← gets (λ (s : Running). volume s.working.blocks)
  raise_if (exceeds bytes request.execution.max_retrieval_bytes)
      (execution_error "maximum managed retrieval volume exceeded")

unfoldable pub answer_calls :
    World → TokenCounter → ManagedRequest → ContextPlan → List Call → Exec Running Unit
answer_calls w counter request p [] = pure tt
answer_calls w counter request p (c ∷ cs) =
    answer_call w counter request p c >>= λ _. answer_calls w counter request p cs
