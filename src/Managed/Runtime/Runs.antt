-- ===== src/Managed/Runtime/Runs.antt =====
-- `ManagedRuntime.run` of src/llmcut/managed/runtime.py as a whole.
use llmcut.Prelude.{ℕ, ◌+◌, ◌≤◌, ◌<◌, Bool, true, false, none, length, ◌≡◌, inl, refl, arith}
use llmcut.Result.{ok}
use llmcut.Json.{ℤ, pos, negsuc}
use llmcut.Json.Integers.{◌+ℤ◌, less}
use llmcut.Exec.{lift, >>=-eq-ok}
use llmcut.World.{World}
use llmcut.Model.Codec.{to_dict, from_dict}
use llmcut.Tokens.{TokenCounter}
use llmcut.Managed.Protocol.{ManagedRequest}
use llmcut.Managed.Planner.{plan}
use llmcut.Managed.Runtime.State.{Surroundings, ManagedResult}
use llmcut.Managed.Runtime.Turns.{turns_from_lem}
use llmcut.Managed.Runtime.{Runtime, run, in_evidence, started, turn_limit}

-- `n` turns are within the limit
abbrev IsWithin : ℕ → ℤ → Type 0
IsWithin n limit = less limit (pos n) ≡ false

IsWithin-turn_limit : (n : ℕ) (limit : ℤ) → 1 ≤ n → n < 1 + turn_limit limit → IsWithin n limit
IsWithin-turn_limit n (pos m) from below = ground (arith, from, below)
IsWithin-turn_limit n (negsuc m) from below = ground (arith, from, below)

module _ (w : World) (counter : TokenCounter) (request : ManagedRequest) where
  -- Where a run that is not dry returns, it is completed after at least one turn and within the limit on
  -- turns of the request. The payload has been measured once a turn, and the total input is the first
  -- turn's and the later turns' together.
  pub run-IsWithin :
      (around : Surroundings) (configured : Bool) (s : Runtime) (r : ManagedResult)
      → (run w counter request around configured false s).0 ≡ ok r
      → (r.status ≡ "completed")
        × (1 ≤ r.turns)
        × (less request.execution.max_turns (pos r.turns) ≡ false)
        × (length r.payload_measurements ≡ r.turns)
        × (r.usage.total_input_tokens
            ≡ r.usage.initial_input_tokens +ℤ r.usage.continuation_input_tokens)
  unfolding run
  run-IsWithin around false s r h =
      let (p, e, next, path) = >>=-eq-ok (in_evidence (plan w counter request none)) _ s h in
      ground (arith, next)
  run-IsWithin around true s r h =
      let (p, e, next, path) = >>=-eq-ok (in_evidence (plan w counter request none)) _ s h in
      let s₁ = (in_evidence (plan w counter request none) s).1 in
      let (copy, e', next', path') = >>=-eq-ok (lift (from_dict w (to_dict p.request))) _ s₁ next in
      let ((from, below), (measured, status, total, events, kept)) =
        turns_from_lem w counter request p around (turn_limit request.execution.max_turns) 1
          (started w request p copy s₁.evidence s₁.registry) r next' (refl, inl refl) in
      (
        status,
        from,
        IsWithin-turn_limit r.turns request.execution.max_turns from below,
        measured,
        total,
      )
