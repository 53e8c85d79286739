-- ===== src/Proxy/Native/Safe.antt =====
-- What `optimize_native` of src/llmcut/proxy/optimize.py passes on.
use llmcut.Prelude.{
  ◌≤◌, ◌<◌, String, Bool, true, false, none, ◌≡◌, ◌⊎◌, refl, subst, inl, inr, Bool-cases, arith,
  leb, if◌then◌else◌,
}
use llmcut.Result.{Result, ok, err, ok_inj}
use llmcut.Json.{Fields, obj}
use llmcut.Exec.{lift, >>=-eq-ok}
use llmcut.World.{World}
use llmcut.Model.{CanonicalRequest}
use llmcut.Policy.{OptimizationMode, default_policy}
use llmcut.Store.Evidence.{EvidenceStore}
use llmcut.Tokens.{TokenCounter}
use llmcut.Core.Optimize.{OptimizationReport, optimize}
use llmcut.Proxy.Native.{
  ProviderAdapter, NativeOptimization, bounded_json, safe_candidate, unreduced, accept, reduce_if,
  attempt, caught, is_caught, optimize_native,
}

module _ (w : World) (adapter : ProviderAdapter) (endpoint : String)
    (optimizer counter : TokenCounter) (mode : OptimizationMode) (body : String) where
  -- the body as it came, or a candidate that is safe for the payload of the body and smaller
  abbrev pub IsSafeBody : NativeOptimization → Type 0
  IsSafeBody n =
      ((n.body ≡ body) × (n.effective_tokens ≡ (counter body none).value))
      ⊎ ((payload : Fields) × (candidate : Fields) × (bounded_json w body ≡ ok payload)
          × (safe_candidate w payload candidate endpoint ≡ ok true)
          × (n.body ≡ w.dumps_native (obj candidate))
          × (n.effective_tokens ≡ (counter n.body none).value)
          × (n.effective_tokens < (counter body none).value))

  accept-IsSafeBody :
      (canonical : CanonicalRequest) (out : CanonicalRequest × OptimizationReport)
      (payload candidate : Fields) (safe : Bool)
      → bounded_json w body ≡ ok payload
      → safe_candidate w payload candidate endpoint ≡ ok safe
      → IsSafeBody
          (accept w adapter endpoint optimizer counter mode body canonical out candidate safe)
  unfolding accept
  accept-IsSafeBody canonical out payload candidate false h k = inl (refl, refl)
  accept-IsSafeBody canonical out payload candidate true h k =
      let attempted = (counter (w.dumps_native (obj candidate)) none).value in
      elim (Bool-cases (leb (counter body none).value attempted)) [
        | inl e ↦ rw e (inl (refl, refl))
        | inr e ↦ rw e (inr (payload, candidate, h, k, refl, refl, ground (arith, e)))
      ]

  reduce_if-IsSafeBody :
      (same : Bool) (payload : Fields) (canonical : CanonicalRequest) (s : EvidenceStore)
      (n : NativeOptimization)
      → bounded_json w body ≡ ok payload
      → (reduce_if w adapter endpoint optimizer counter mode body same payload canonical s).0 ≡ ok n
      → IsSafeBody n
  reduce_if-IsSafeBody false payload canonical s n e h =
      subst IsSafeBody (ok_inj h) (inl (refl, refl))
  reduce_if-IsSafeBody true payload canonical s n e h =
      let run = optimize w optimizer canonical (record default_policy { mode = mode }) in
      let (out, _, h1, _) = >>=-eq-ok run _ s h in
      let (candidate, _, h2, _) = >>=-eq-ok (lift (adapter.to_native out.0)) _ (run s).1 h1 in
      let (safe, k, h3, _) =
        >>=-eq-ok (lift (safe_candidate w payload candidate endpoint)) _ (run s).1 h2 in
      subst IsSafeBody (ok_inj h3) (accept-IsSafeBody canonical out payload candidate safe e k)

  attempt-IsSafeBody :
      (s : EvidenceStore) (n : NativeOptimization)
      → (attempt w adapter endpoint optimizer counter mode body s).0 ≡ ok n
      → IsSafeBody n
  unfolding attempt
  attempt-IsSafeBody s n h =
      let (payload, e, h1, _) = >>=-eq-ok (lift (bounded_json w body)) _ s h in
      let (_, _, h2, _) = >>=-eq-ok (lift (adapter.validate_native payload)) _ s h1 in
      let (canonical, _, h3, _) = >>=-eq-ok (lift (adapter.from_native payload)) _ s h2 in
      let (again, _, h4, _) = >>=-eq-ok (lift (adapter.to_native canonical)) _ s h3 in
      reduce_if-IsSafeBody (adapter.semantically_equal payload again) payload canonical s n e h4

  caught-IsSafeBody :
      (r : Result NativeOptimization) (s : EvidenceStore) (n : NativeOptimization)
      → ((m : NativeOptimization) → r ≡ ok m → IsSafeBody m)
      → (caught w adapter endpoint optimizer counter mode body (r, s)).0 ≡ ok n
      → IsSafeBody n
  caught-IsSafeBody (ok m) s n f h = f n h
  caught-IsSafeBody (err e) s n f h = elim (Bool-cases (is_caught e)) [
    | inl k ↦
        let back =
          unreduced w adapter endpoint optimizer counter mode body "restored"
            "request could not be safely parsed or optimized" (counter body none).value 0 none in
        subst IsSafeBody
          (ok_inj (
            subst
              (λ b.
                (if◌then◌else◌ {A = Result NativeOptimization × EvidenceStore} b (ok back, s)
                  (err e, s)).0
                ≡ ok n)
              k h))
          (inl (refl, refl))
    | inr k ↦ ground (arith, k, h)
  ]

  counted :
      (n : NativeOptimization)
      → IsSafeBody n
      → (n.effective_tokens ≡ (counter n.body none).value)
        × (n.effective_tokens ≤ (counter body none).value)
  counted n (inl (e, k)) = (rw e k, omega (arith, k))
  counted n (inr (p, c, a, b, d, e, k)) = (e, omega (arith, k))

-- What the proxy passes on is the body as it came, or a smaller text of a candidate that passes the
-- structural checks against the body's payload. The effective count is that of what is passed on, and
-- is never larger than that of the body.
pub optimize_native-IsSafeBody :
    (w : World) (adapter : ProviderAdapter) (endpoint : String) (optimizer counter : TokenCounter)
    (mode : OptimizationMode) (body : String) (s : EvidenceStore) (n : NativeOptimization)
    → (optimize_native w adapter endpoint optimizer counter mode body s).0 ≡ ok n
    → IsSafeBody w adapter endpoint optimizer counter mode body n
      × (n.effective_tokens ≡ (counter n.body none).value)
      × (n.effective_tokens ≤ (counter body none).value)
unfolding optimize_native
optimize_native-IsSafeBody w adapter endpoint optimizer counter mode body s n h =
    let run = attempt w adapter endpoint optimizer counter mode body s in
    let safe =
      caught-IsSafeBody w adapter endpoint optimizer counter mode body run.0 run.1 n
        (λ m e. attempt-IsSafeBody w adapter endpoint optimizer counter mode body s m e) h in
    let (own, less) = counted w adapter endpoint optimizer counter mode body n safe in
    (safe, own, less)
