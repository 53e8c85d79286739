-- ===== src/Managed/Retrieval/Cached.antt =====
-- The cache of `RetrievalService.execute` in src/llmcut/managed/retrieval.py, and the bound on what
-- it gives out.
use Prim.Native.String.{len}
use llmcut.Prelude.{
  String, true, false, none, some, List, [], ◌∷◌, elem, lookup, insert, lookup-insert, eq_refl, ◌≡◌,
  refl, sym, ap, ◌∙◌, subst, inl, inr, Bool-cases, Option-cases, arith, All, ◌≟◌, if◌then◌else◌,
}
use llmcut.Result.{ok, ok_inj, retrieval_error}
use llmcut.Json.{ℤ, Fields}
use llmcut.Exec.{proceed, raise_if, >>=-eq-ok}
use llmcut.World.{World}
use llmcut.Managed.Protocol.{ManagedRequest}
use llmcut.Managed.Planner.{ContextPlan}
use llmcut.Managed.Retrieval.{
  RetrievalResult, Service, in_store, cache_key, exceeds, remember, answer, execute, execute_fresh,
}

-- every cached result is within the bound on volume
abbrev pub IsBounded : ℤ → Service → Type 0
IsBounded bound s =
    All (λ (e : String × RetrievalResult). exceeds (len e.1.content) bound ≡ false) s.cache

some_inj : {q r : RetrievalResult} → some q ≡ some r → q ≡ r
some_inj {q} h = ap (λ o. elim o [ none ↦ q | some x ↦ x ]) h

insert-All :
    (P : String × RetrievalResult → Type 0) (k : String) (r : RetrievalResult)
    → ((j : String) → P (j, r))
    → (d : List (String × RetrievalResult)) → All P d
    → All P (insert k r d)
insert-All P k r h [] a = (h k, tt)
insert-All P k r h ((j, q) ∷ d) a = elim (Bool-cases (k ≟ j)) [
  | inl e ↦ rw e (h j, a.1)
  | inr e ↦ rw e (a.0, insert-All P k r h d a.1)
]

lookup-All :
    (P : RetrievalResult → Type 0) (k : String) (r : RetrievalResult)
    (d : List (String × RetrievalResult))
    → All (λ (e : String × RetrievalResult). P e.1) d
    → lookup k d ≡ some r
    → P r
lookup-All P k r [] a h = ground arith
lookup-All P k r ((j, q) ∷ d) a h = elim (Bool-cases (k ≟ j)) [
  | inl e ↦ subst P (some_inj (subst (λ b. (if b then some q else lookup k d) ≡ some r) e h)) a.0
  | inr e ↦ lookup-All P k r d a.1 (subst (λ b. (if b then some q else lookup k d) ≡ some r) e h)
]

module _ (w : World) (request : ManagedRequest) (plan : ContextPlan) (operation : String)
    (arguments : Fields) where
  abbrev key : String
  key = cache_key w operation arguments

  abbrev bound : ℤ
  bound = request.execution.max_retrieval_bytes

  -- A fresh answer that is given is within the bound, and is then in the cache.
  fresh-lookup :
      (s : Service) (r : RetrievalResult)
      → (answer w request plan operation arguments none s).0 ≡ ok r
      → (lookup key (answer w request plan operation arguments none s).1.cache ≡ some r)
        × (exceeds (len r.content) bound ≡ false)
  unfolding answer
  fresh-lookup s r h =
      let (a, e, next, path) =
        >>=-eq-ok (in_store (execute_fresh w request plan operation arguments)) _ s h in
      let s' = (in_store (execute_fresh w request plan operation arguments) s).1 in
      rw path (elim (Bool-cases (exceeds (len a.content) bound)) [
        | inl b ↦ ground (arith, b, next)
        | inr b ↦
            let same = ok_inj (
              subst
                (λ t.
                  (proceed
                    (raise_if t (retrieval_error "retrieval result exceeds configured volume bound")
                      s')
                    (λ _. remember key a)).0
                  ≡ ok r)
                b next) in
            rw b (
              rw same (lookup-insert key key r s'.cache ∙ rw (eq_refl key) refl),
              subst (λ x. exceeds (len x.content) bound ≡ false) same b,
            )
      ])

  -- An operation that the plan does not offer is refused.
  run :
      (s : Service)
      → elem operation plan.retrieval_operations ≡ true
      → execute w request plan operation arguments s
        ≡ answer w request plan operation arguments (lookup key s.cache) s
  unfolding execute
  run s e = rw (e, execute) refl

  offered :
      (s : Service) (r : RetrievalResult)
      → (execute w request plan operation arguments s).0 ≡ ok r
      → elem operation plan.retrieval_operations ≡ true
  unfolding execute
  offered s r h = elim (Bool-cases (elem operation plan.retrieval_operations)) [
    | inl e ↦ e
    | inr e ↦ ground (arith, e, h)
  ]

  hit :
      (s : Service) (r : RetrievalResult)
      → elem operation plan.retrieval_operations ≡ true
      → lookup key s.cache ≡ some r
      → execute w request plan operation arguments s ≡ (ok (record r { cached = true }), s)
  unfolding answer
  hit s r e f = run s e ∙ rw (f, answer) refl

  fresh-IsBounded :
      (s : Service) (r : RetrievalResult)
      → IsBounded bound s
      → (answer w request plan operation arguments none s).0 ≡ ok r
      → IsBounded bound (answer w request plan operation arguments none s).1
  unfolding answer
  fresh-IsBounded s r bounded h =
      let (a, e, next, path) =
        >>=-eq-ok (in_store (execute_fresh w request plan operation arguments)) _ s h in
      let P = λ (e : String × RetrievalResult). exceeds (len e.1.content) bound ≡ false in
      rw path (elim (Bool-cases (exceeds (len a.content) bound)) [
        | inl b ↦ rw b bounded
        | inr b ↦ rw b (insert-All P key a (λ j. b) s.cache bounded)
      ])

  IsBounded-fresh :
      (s : Service) (r : RetrievalResult)
      → IsBounded bound s
      → elem operation plan.retrieval_operations ≡ true
      → lookup key s.cache ≡ none
      → (execute w request plan operation arguments s).0 ≡ ok r
      → (exceeds (len r.content) bound ≡ false)
        × IsBounded bound (execute w request plan operation arguments s).1
  IsBounded-fresh s r bounded e f h =
      let path = run s e ∙ ap (λ o. answer w request plan operation arguments o s) f in
      let h' = ap (λ x. x.0) (sym path) ∙ h in
      ((fresh-lookup s r h').1, rw path (fresh-IsBounded s r bounded h'))

  again_fresh :
      (s : Service) (r : RetrievalResult)
      → elem operation plan.retrieval_operations ≡ true
      → lookup key s.cache ≡ none
      → (execute w request plan operation arguments s).0 ≡ ok r
      → let s' = (execute w request plan operation arguments s).1 in
        execute w request plan operation arguments s' ≡ (ok (record r { cached = true }), s')
  again_fresh s r e f h =
      let path = run s e ∙ ap (λ o. answer w request plan operation arguments o s) f in
      let found = (fresh-lookup s r (ap (λ x. x.0) (sym path) ∙ h)).0 in
      rw path (hit (answer w request plan operation arguments none s).1 r e found)

-- Asking again for what was given leaves the service as it is and gives the same result, marked as
-- cached.
pub execute_again :
    (w : World) (request : ManagedRequest) (plan : ContextPlan) (operation : String)
    (arguments : Fields) (s : Service) (r : RetrievalResult)
    → (execute w request plan operation arguments s).0 ≡ ok r
    → let s' = (execute w request plan operation arguments s).1 in
      execute w request plan operation arguments s' ≡ (ok (record r { cached = true }), s')
execute_again w request plan operation arguments s r h =
    let e = offered w request plan operation arguments s r h in
    let path = run w request plan operation arguments s e in
    elim (Option-cases (lookup (cache_key w operation arguments) s.cache)) [
      | inl f ↦ again_fresh w request plan operation arguments s r e f h
      | inr (q, f) ↦
          let known = hit w request plan operation arguments s q e f in
          let same = ok_inj (subst (λ x. x.0 ≡ ok r) known h) in
          rw known (known ∙ rw (sym same) refl)
    ]

-- What is given out is within the bound on volume, and so is what the cache then holds, provided the
-- cache held nothing beyond the bound.
pub execute-IsBounded :
    (w : World) (request : ManagedRequest) (plan : ContextPlan) (operation : String)
    (arguments : Fields) (s : Service) (r : RetrievalResult)
    → IsBounded request.execution.max_retrieval_bytes s
    → (execute w request plan operation arguments s).0 ≡ ok r
    → (exceeds (len r.content) request.execution.max_retrieval_bytes ≡ false)
      × IsBounded request.execution.max_retrieval_bytes
          (execute w request plan operation arguments s).1
execute-IsBounded w request plan operation arguments s r bounded h =
    let e = offered w request plan operation arguments s r h in
    let key = cache_key w operation arguments in
    elim (Option-cases (lookup key s.cache)) [
      | inl f ↦ IsBounded-fresh w request plan operation arguments s r bounded e f h
      | inr (q, f) ↦
          let known = hit w request plan operation arguments s q e f in
          let P = λ (x : RetrievalResult).
            exceeds (len x.content) request.execution.max_retrieval_bytes ≡ false in
          (
            subst P (ok_inj (ap (λ x. x.0) (sym known) ∙ h)) (lookup-All P key q s.cache bounded f),
            rw known bounded,
          )
    ]
