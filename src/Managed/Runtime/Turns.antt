-- ===== src/Managed/Runtime/Turns.antt =====
-- The loop over turns of `ManagedRuntime.run` in src/llmcut/managed/runtime.py, where it returns.
use llmcut.Prelude.{
  ℕ, zero, suc, ◌+◌, ◌≤◌, ◌<◌, String, false, List, [], ◌∷◌, ◌++◌, length, length-snoc, ◌≡◌, ◌⊎◌,
  inl, inr, refl, sym, ap, ◌∙◌, subst₂, arith,
}
use llmcut.Result.{Result, ok, err, ok_inj}
use llmcut.Json.{Fields}
use llmcut.Json.Integers.{◌+ℤ◌}
use llmcut.Exec.{lift, >>=-eq-ok, raise_if-eq-ok}
use llmcut.World.{World}
use llmcut.Model.{CanonicalRequest}
use llmcut.Tokens.{TokenCounter}
use llmcut.Tokens.Measurement.{TokenMeasurement, count_payload}
use llmcut.Adapters.{ProviderAdapter}
use llmcut.Managed.Protocol.{ManagedRequest}
use llmcut.Managed.Planner.{ContextPlan}
use llmcut.Managed.Retrieval.{exceeds}
use llmcut.Managed.Runtime.Calls.{Call, tool_calls, output_of}
use llmcut.Managed.Runtime.Blocks.{assistant_block}
use llmcut.Managed.Runtime.State.{RetrievalEvent, Surroundings, Running, ManagedResult}
use llmcut.Managed.Runtime.Ask.{
  ask, account, append, measure, adapter_of, check_bounds, response_of, input_count, counted,
}
use llmcut.Managed.Runtime.Answer.{answer_calls, volume}
use llmcut.Managed.Runtime.Answered.{answer_calls_lem, tallies}
use llmcut.Managed.Runtime.{act, turns_from, finish, continue_with, is_over}

-- the total is of what the turns so far have sent
abbrev pub IsTotal : Running → Type 0
IsTotal s =
    s.usage.total_input_tokens ≡ s.usage.initial_input_tokens +ℤ s.usage.continuation_input_tokens

account_lem :
    (adapter : ProviderAdapter) (around : Surroundings) (turn : ℕ) (m : TokenMeasurement)
    (response : Fields) (s : Running) {x : Unit {0}}
    → (account adapter around turn m response s).0 ≡ ok x
    → let s' = (account adapter around turn m response s).1 in
      IsTotal s'
      × (s'.measurements ≡ s.measurements)
      × (s'.events ≡ s.events)
      × (s'.working ≡ s.working)
unfolding account
account_lem adapter around turn m response s h =
    let s₀ = record s { provider_seconds = s.provider_seconds + around.call_seconds turn } in
    let (reported, e, h1, p) = >>=-eq-ok (lift (adapter.usage response)) _ s₀ h in
    let (input, e1, h2, p1) =
      >>=-eq-ok (lift (input_count reported.input_tokens m.value)) _ s₀ h1 in
    let (output, e2, h3, p2) = >>=-eq-ok (lift (counted reported.output_tokens)) _ _ h2 in
    let (reasoning, e3, h4, p3) = >>=-eq-ok (lift (counted reported.reasoning_tokens)) _ _ h3 in
    let (cached, e4, h5, p4) = >>=-eq-ok (lift (counted reported.cached_tokens)) _ _ h4 in
    rw (p ∙ p1 ∙ p2 ∙ p3 ∙ p4) (refl, refl, refl, refl)

module _ (w : World) (request : ManagedRequest) (around : Surroundings) where
  append_lem :
      (r : Result TokenMeasurement) (s : Running) {m : TokenMeasurement}
      → (append r s).0 ≡ ok m
      → let s' = (append r s).1 in
        (length s'.measurements ≡ suc (length s.measurements))
        × (s'.events ≡ s.events)
        × (s'.working ≡ s.working)
  append_lem (err e) s h = ground (arith, h)
  append_lem (ok m) s h = (length-snoc s.measurements m, refl, refl)

  measure_lem :
      (now : String) (native : Fields) (s : Running) {m : TokenMeasurement}
      → (measure w request now native s).0 ≡ ok m
      → let s' = (measure w request now native s).1 in
        (length s'.measurements ≡ suc (length s.measurements))
        × (s'.events ≡ s.events)
        × (s'.working ≡ s.working)
  unfolding measure
  measure_lem now native s h =
      let (r, registry) = count_payload w request.provider request.model native now s.registry in
      append_lem r (record s { registry = registry }) h

  ask_lem :
      (turn : ℕ) (s : Running) {a : Fields × List Call}
      → (ask w request around turn s).0 ≡ ok a
      → let s' = (ask w request around turn s).1 in
        IsTotal s'
        × (length s'.measurements ≡ suc (length s.measurements))
        × (s'.events ≡ s.events)
        × (s'.working ≡ s.working)
  unfolding ask
  ask_lem turn s h =
      let (x, e, h1, p) = >>=-eq-ok (lift (check_bounds request around turn)) _ s h in
      let (adapter, e1, h2, p1) = >>=-eq-ok (lift (adapter_of w request.provider)) _ s h1 in
      let (native, e2, h3, p2) = >>=-eq-ok (lift (adapter.to_native s.working)) _ s h2 in
      let s₁ = (measure w request (around.now turn) native s).1 in
      let (m, e3, h4, p3) = >>=-eq-ok (measure w request (around.now turn) native) _ s h3 in
      let (response, e4, h5, p4) =
        >>=-eq-ok (lift (response_of (around.provider_call turn native))) _ s₁ h4 in
      let (y, e5, h6, p5) = >>=-eq-ok (account adapter around turn m response) _ s₁ h5 in
      let (calls, e6, h7, p6) =
        >>=-eq-ok (lift (tool_calls w request.provider response)) _
          (account adapter around turn m response s₁).1 h6 in
      let (total, measured, events, working) = account_lem adapter around turn m response s₁ e5 in
      let (one_more, same_events, same_working) = measure_lem (around.now turn) native s e3 in
      rw (p, p1, p2, p3, p4, p5, p6)
        (total, ap length measured ∙ one_more, events ∙ same_events, working ∙ same_working)

module _ (w : World) (counter : TokenCounter) (request : ManagedRequest) (p : ContextPlan)
    (around : Surroundings) where
  -- if evidence was retrieved, then the tool results are within the bound on retrieval
  abbrev IsKept : Running → Type 0
  IsKept s =
      (s.events ≡ [])
      ⊎ (exceeds (volume s.working.blocks) request.execution.max_retrieval_bytes ≡ false)

  -- what holds at the start of a turn
  abbrev pub Holds : ℕ → Running → Type 0
  Holds turn s = (suc (length s.measurements) ≡ turn) × IsKept s

  -- what holds of a result, and of the state that it comes with
  abbrev pub IsOver : ManagedResult → Running → Type 0
  IsOver r s =
      (length r.payload_measurements ≡ r.turns)
      × (r.status ≡ "completed")
      × (r.usage.total_input_tokens
          ≡ r.usage.initial_input_tokens +ℤ r.usage.continuation_input_tokens)
      × (r.retrievals ≡ s.events)
      × IsKept s

  -- and by the turn that the loop started with
  abbrev pub Ends : ℕ → ℕ → ManagedResult → Running → Type 0
  Ends least left r s = ((least ≤ r.turns) × (r.turns < least + left)) × IsOver r s

  continue_with_lem :
      (turn : ℕ) (response : Fields) (c : Call) (cs : List Call) (s : Running) {x : Unit {0}}
      → (continue_with w counter request p turn response (c ∷ cs) s).0 ≡ ok x
      → let s' = (continue_with w counter request p turn response (c ∷ cs) s).1 in
        (tallies s' ≡ tallies s)
        × (exceeds (volume s'.working.blocks) request.execution.max_retrieval_bytes ≡ false)
        × (is_over s'.usage.total_input_tokens request.execution.max_total_tokens ≡ false)
  unfolding continue_with
  continue_with_lem turn response c cs s h =
      let (block, e, h1, p1) =
        >>=-eq-ok (lift (assistant_block w request.provider response turn)) _ s h in
      let s₁ = record s {
        working = record s.working { blocks = s.working.blocks ++ block ∷ [] };
      } in
      let (y, e1, h2, p2) = >>=-eq-ok (answer_calls w counter request p (c ∷ cs)) _ s₁ h1 in
      let (apart, new, same, below, more) = answer_calls_lem w counter request p (c ∷ cs) s₁ e1 in
      let (in_bound, p3) = raise_if-eq-ok _ _ _ h2 in
      rw (p1 ∙ p2 ∙ p3)
        (same, elim below [ inl none_there ↦ ground (arith, none_there) | inr b ↦ b ], in_bound)

  finish_lem :
      (turn : ℕ) (response : Fields) (s : Running) {r : ManagedResult}
      → (finish w request p around turn response s).0 ≡ ok r
      → IsTotal s
      → (length s.measurements ≡ turn)
      → IsKept s
      → Ends turn 1 r (finish w request p around turn response s).1
  unfolding finish
  finish_lem turn response s h total measured kept =
      let (output, e, next, path) =
        >>=-eq-ok (lift (output_of w request.provider response)) _ s h in
      rw (path, sym (ok_inj next)) ((omega arith, omega arith), (measured, refl, total, refl, kept))

  act_lem :
      (turn left : ℕ) {r : ManagedResult}
      → ((s : Running)
          → (turns_from w counter request p around left (suc turn) s).0 ≡ ok r
          → Holds (suc turn) s
          → Ends (suc turn) left r (turns_from w counter request p around left (suc turn) s).1)
      → (asked : Fields × List Call) (s : Running)
      → let rest = turns_from w counter request p around left (suc turn) in
        (act w counter request p around turn rest asked s).0 ≡ ok r
        → IsTotal s
        → (length s.measurements ≡ turn)
        → IsKept s
        → Ends turn (suc left) r (act w counter request p around turn rest asked s).1
  unfolding act
  act_lem turn left later (response, []) s h total measured kept =
      let ((from, below), others) = finish_lem turn response s h total measured kept in
      ((from, omega (arith, below)), others)
  act_lem turn left later (response, c ∷ cs) s h total measured kept =
      let (x, e, next, path) =
        >>=-eq-ok (continue_with w counter request p turn response (c ∷ cs)) _ s h in
      let (same, in_volume, in_total) = continue_with_lem turn response c cs s e in
      let s₁ = (continue_with w counter request p turn response (c ∷ cs) s).1 in
      let measured' = ap (λ t. suc (length t.0)) same ∙ ap suc measured in
      let ((from, below), others) = later s₁ next (measured', inr in_volume) in
      rw path ((omega (arith, from), omega (arith, below)), others)

  -- Where the loop over turns returns, its result is of a turn from the one that it started with on and
  -- within the turns that were left. The request has been measured once a turn, the run is completed, and
  -- its total input is the sum of the first turn's and the later turns'. If evidence was retrieved at all,
  -- then the tool results in the request are within the bound on retrieval.
  pub turns_from_lem :
      (left turn : ℕ) (s : Running) (r : ManagedResult)
      → (turns_from w counter request p around left turn s).0 ≡ ok r
      → Holds turn s
      → Ends turn left r (turns_from w counter request p around left turn s).1
  unfolding turns_from
  turns_from_lem zero turn s r h holds = ground (arith, h)
  turns_from_lem (suc left) turn s r h (measured, kept) =
      let rest = turns_from w counter request p around left (suc turn) in
      let (asked, e, next, path) =
        >>=-eq-ok (ask w request around turn) (act w counter request p around turn rest) s h in
      let s₁ = (ask w request around turn s).1 in
      let (total, one_more, events, working) = ask_lem w request around turn s e in
      let kept' =
        subst₂
          (λ (l : List RetrievalEvent) (r : CanonicalRequest).
            (l ≡ []) ⊎ (exceeds (volume r.blocks) request.execution.max_retrieval_bytes ≡ false))
          (sym events) (sym working) kept in
      rw path (
        act_lem turn left (λ t. turns_from_lem left (suc turn) t r) asked s₁ next total
          (one_more ∙ measured) kept')
