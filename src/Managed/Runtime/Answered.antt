-- ===== src/Managed/Runtime/Answered.antt =====
-- What the loop over the calls in `ManagedRuntime.run` of src/llmcut/managed/runtime.py has done where it
-- went through.
use llmcut.Prelude.{
  suc, ◌+◌, String, false, List, [], ◌∷◌, ◌++◌, map, length, length-snoc, elem, elem-append, eq_iff,
  ◌≡◌, ◌⊎◌, inl, inr, refl, sym, ◌∙◌, subst, arith, All,
}
use llmcut.Result.{ok}
use llmcut.Json.{ℤ}
use llmcut.Exec.{>>=-eq-ok, raise_if-eq-ok, guard-eq-ok}
use llmcut.World.{World}
use llmcut.Tokens.{TokenCounter}
use llmcut.Tokens.Measurement.{TokenMeasurement}
use llmcut.Managed.Protocol.{ManagedRequest}
use llmcut.Managed.Planner.{ContextPlan}
use llmcut.Managed.Retrieval
use llmcut.Managed.Retrieval.{exceeds}
use llmcut.Managed.Runtime.Calls.{Call}
use llmcut.Managed.Runtime.State.{Running}
use llmcut.Managed.Runtime.Answer.{answer_call, answer_calls, call_key, volume, in_service, reraise}

-- what only a call of the provider changes
abbrev pub tallies : Running → List TokenMeasurement × ℤ × ℤ × ℤ
tallies s = (
  s.measurements, s.usage.total_input_tokens, s.usage.initial_input_tokens,
  s.usage.continuation_input_tokens,
)

-- the elements differ from one another, and from those seen
abbrev pub IsDistinct : List String → Type 0
IsDistinct [] = Unit
IsDistinct (x ∷ xs) = (elem x xs ≡ false) × IsDistinct xs

unseen_after :
    (w : World) (seen : List String) (c : Call) (cs : List Call)
    → All (λ (d : Call). elem (call_key w d) (seen ++ call_key w c ∷ []) ≡ false) cs
    → (elem (call_key w c) (map (call_key w) cs) ≡ false)
      × All (λ (d : Call). elem (call_key w d) seen ≡ false) cs
unseen_after w seen c [] a = (refl, tt)
unseen_after w seen c (d ∷ cs) a =
    let (rest, rest') = unseen_after w seen c cs a.1 in
    let both = sym (elem-append (call_key w d) seen (call_key w c ∷ [])) ∙ a.0 in
    (
      ground (
        arith,
        both,
        rest,
        eq_iff (call_key w c) (call_key w d),
        eq_iff (call_key w d) (call_key w c),
      ),
      (ground (arith, both), rest'),
    )

module _ (w : World) (counter : TokenCounter) (request : ManagedRequest) (p : ContextPlan) where
  abbrev bound : ℤ
  bound = request.execution.max_retrieval_bytes

  answer_call_lem :
      (c : Call) (s : Running)
      → (answer_call w counter request p c s).0 ≡ ok tt
      → let s' = (answer_call w counter request p c s).1 in
        (elem (call_key w c) s.repeated ≡ false)
        × (s'.repeated ≡ s.repeated ++ call_key w c ∷ [])
        × (tallies s' ≡ tallies s)
        × (exceeds (volume s'.working.blocks) bound ≡ false)
        × (length s'.events ≡ suc (length s.events))
  unfolding answer_call
  answer_call_lem c s h =
      let (new, path) = guard-eq-ok (elem (call_key w c) s.repeated) _ _ s h in
      let (r, e, next, path') =
        >>=-eq-ok (in_service (reraise (Retrieval.execute w request p c.operation c.arguments))) _ _
          (subst (λ x. x.0 ≡ ok tt) path h) in
      let (below, path'') = raise_if-eq-ok _ _ _ next in
      rw (path, path', path'') (new, refl, refl, below, length-snoc s.events _)

  -- Where the loop over the calls of a response has gone through, no call repeats one that was answered
  -- before in the run and no two of the calls have the same key. Each call has added one event, the
  -- measurements and the counts of the input are as they were, and if there was a call at all, then the
  -- tool results in the request that is being worked on are within the bound on retrieval.
  pub answer_calls_lem :
      (cs : List Call) (s : Running)
      → (answer_calls w counter request p cs s).0 ≡ ok tt
      → let s' = (answer_calls w counter request p cs s).1 in
        IsDistinct (map (call_key w) cs)
        × All (λ (c : Call). elem (call_key w c) s.repeated ≡ false) cs
        × (tallies s' ≡ tallies s)
        × ((cs ≡ []) ⊎ (exceeds (volume s'.working.blocks) bound ≡ false))
        × (length s'.events ≡ length s.events + length cs)
  unfolding answer_calls
  answer_calls_lem [] s h = (tt, tt, refl, inl refl, omega arith)
  answer_calls_lem (c ∷ cs) s h =
      let (x, e, next, path) =
        >>=-eq-ok (answer_call w counter request p c) (λ _. answer_calls w counter request p cs) s
          h in
      let s₁ = (answer_call w counter request p c s).1 in
      let (new, keys, same, below, one) = answer_call_lem c s e in
      let (apart, others, same', below', more) = answer_calls_lem cs s₁ next in
      let unseen =
        unseen_after w s.repeated c cs
          (subst (λ l. All (λ (c : Call). elem (call_key w c) l ≡ false) cs) keys others) in
      rw path (
        (unseen.0, apart),
        (new, unseen.1),
        same' ∙ same,
        inr (elim below' [
          | inl none_left ↦
              subst
                (λ l.
                  exceeds (volume (answer_calls w counter request p l s₁).1.working.blocks) bound
                  ≡ false)
                (sym none_left) below
          | inr b ↦ b
        ]),
        more ∙ ground (arith, one),
      )
