-- ===== src/Managed/Planner/Retained.antt =====
-- What a plan that `ContextPlanner.plan` returns has done with each context, and its size.
pub mod Dependencies
use llmcut.Prelude.{
  ◌≤◌, String, true, false, Option, some, List, [], ◌∷◌, ◌++◌, map, keep_if, elem, lookup, ◌≟◌,
  eq_iff, eq_refl, ◌≡◌, refl, sym, ap, ◌∙◌, subst, inl, inr, Bool-cases, All, arith, append_assoc,
}
use llmcut.Result.{Result, ok, err, ok_inj}
use llmcut.Result
use llmcut.Exec.{lift, >>=-eq-ok}
use llmcut.World.{World}
use llmcut.Model.Bound.{model_bound_json}
use llmcut.Policy.{OptimizationMode}
use llmcut.Store.Evidence
use llmcut.Store.Evidence.{EvidenceStore}
use llmcut.Store.Database.{select_content}
use llmcut.Store.Evidence.Extends.{get_found}
use llmcut.Tokens.{TokenCounter}
use llmcut.Managed.Protocol.{Context, ManagedRequest, validate, model_configuration}
use llmcut.Managed.Protocol.Validity.{ids_of, validate-IsSoundContext}
use llmcut.Managed.Planner.Choice.{Selection, terms, choose, active_ids, is_kept}
use llmcut.Managed.Planner.Choice.Kept.{Grows, choose_kept}
use llmcut.Managed.Planner.Closure.Fixpoint.{close-Grows}
use llmcut.Managed.Planner.Evidence.{Stored, store_contexts}
use llmcut.Managed.Planner.Evidence.Retrievable.{store_contexts-Grows, store_contexts-IsReadable}
use llmcut.Managed.Planner.{
  ContextPlan, size_test, is_deferred, conclude, decisions_of, or_mode, selection_of, plan,
  baseline_request,
}

-- the parts of a plan that was returned
record Planned (w : World) (counter : TokenCounter) (r : ManagedRequest)
    (mode : Option OptimizationMode) (s : EvidenceStore) (p : ContextPlan) : Type 0 where
  pub selection : Selection
  pub stored : Stored
  pub valid : validate w r ≡ ok tt
  pub chosen : selection_of w r (or_mode mode r.execution.optimization) ≡ ok selection
  pub kept : (store_contexts w r.context selection s).0 ≡ ok stored
  pub final : (plan w counter r mode s).1 ≡ (store_contexts w r.context selection s).1
  pub deferred :
      p.deferred
      ≡ map
          (λ (c : Context). c.id)
          (keep_if (is_deferred (size_test w counter r stored).selection) r.context)
  pub evidence : p.evidence ≡ stored.evidence
  pub sent : p.request ≡ (size_test w counter r stored).request
  pub initial : p.initial_tokens ≡ (size_test w counter r stored).count.value
  pub baseline :
      p.baseline_tokens ≡ (counter (model_bound_json w (baseline_request w r)) (some r.model)).value

module _ (w : World) (counter : TokenCounter) (r : ManagedRequest) where
  plan-Planned :
      (mode : Option OptimizationMode) (s : EvidenceStore) (p : ContextPlan)
      → (plan w counter r mode s).0 ≡ ok p
      → Planned w counter r mode s p
  unfolding plan conclude
  plan-Planned mode s p h =
      let (u, e, h1, q1) = >>=-eq-ok (lift (validate w r)) _ s h in
      let (selection, f, h2, q2) =
        >>=-eq-ok (lift (selection_of w r (or_mode mode r.execution.optimization))) _ s h1 in
      let (stored, g, h3, q3) = >>=-eq-ok (store_contexts w r.context selection) _ s h2 in
      let (configuration, k', h3') = Result.>>=-eq-ok (model_configuration r) _ h3 in
      let (ds, k, h4) =
        Result.>>=-eq-ok (decisions_of (size_test w counter r stored).selection r.context) _ h3' in
      let same = ok_inj h4 in
      record {
        selection = selection;
        stored = stored;
        valid = e;
        chosen = f;
        kept = g;
        final = ap (λ x. x.1) (q1 ∙ q2 ∙ q3);
        deferred = ap (λ (x : ContextPlan). x.deferred) (sym same);
        evidence = ap (λ (x : ContextPlan). x.evidence) (sym same);
        sent = ap (λ (x : ContextPlan). x.request) (sym same);
        initial = ap (λ (x : ContextPlan). x.initial_tokens) (sym same);
        baseline = ap (λ (x : ContextPlan). x.baseline_tokens) (sym same);
      }

  -- The size test selects at least what it is given, and sends the smaller of two requests.
  size_test-Grows :
      (stored : Stored) (i : String) (cs : List Context)
      → r.context ≡ cs
      → elem i (ids_of cs) ≡ true
      → elem i stored.selection.selected ≡ true
      → elem i (size_test w counter r stored).selection.selected ≡ true
  unfolding size_test
  size_test-Grows stored i cs same known e = ground (arith, same, known, e)

  size_test-exact :
      (stored : Stored)
      → let sized = size_test w counter r stored in
        (sized.count.value ≡ (counter (model_bound_json w sized.request) (some r.model)).value)
        × (sized.count.value
            ≤ (counter (model_bound_json w (baseline_request w r)) (some r.model)).value)
  unfolding size_test
  size_test-exact stored = ground arith

eq_to : (a b : String) → (a ≟ b) ≡ true → a ≡ b
eq_to a b h = (eq_iff a b).0 h

elem-keep_if :
    (i : String) (sel : Selection) (cs : List Context)
    → elem i (map (λ (c : Context). c.id) (keep_if (is_deferred sel) cs)) ≡ true
    → elem i sel.selected ≡ false
elem-keep_if i sel (c ∷ cs) h = elim (Bool-cases (elem c.id sel.selected)) [
  | inl e ↦ elem-keep_if i sel cs (ground (arith, e, h))
  | inr e ↦ elim (Bool-cases (i ≟ c.id)) [
    | inl k ↦ rw (eq_to i c.id k) e
    | inr k ↦ elem-keep_if i sel cs (ground (arith, e, k, h))
  ]
]
elem-keep_if i sel [] h = ground arith

All-at :
    (P : Context → Type 0) (before : List Context) (c : Context) (after : List Context)
    → All P (before ++ c ∷ after)
    → P c
All-at P [] c after h = h.0
All-at P (b ∷ before) c after h = All-at P before c after h.1

elem-at :
    (before : List Context) (c : Context) (after : List Context)
    → elem c.id (ids_of (before ++ c ∷ after)) ≡ true
elem-at [] c after = ground (arith, eq_refl c.id)
elem-at (b ∷ before) c after = ground (arith, elem-at before c after)

-- A context that is not the first with its identifier does not stand in a validated request.
fresh_after :
    (i : String) (cs : List Context)
    → ((mid : List Context) (d : Context) (rest : List Context)
        → cs ≡ mid ++ d ∷ rest
        → (i ≟ d.id) ≡ false)
    → elem i (ids_of cs) ≡ false
fresh_after i [] f = refl
fresh_after i (d ∷ cs) f = ground (
  arith,
  f [] d cs refl,
  fresh_after i cs (λ mid e rest same. f (d ∷ mid) e rest (ap (λ xs. d ∷ xs) same)),
)

module _ (w : World) (counter : TokenCounter) (r : ManagedRequest) (before : List Context)
    (c : Context) (after : List Context) where
  unique_after :
      validate w r ≡ ok tt → r.context ≡ before ++ c ∷ after → elem c.id (ids_of after) ≡ false
  unique_after valid split = fresh_after c.id after λ mid d rest same.
      elim (Bool-cases (c.id ≟ d.id)) [
        | inr e ↦ e
        | inl e ↦
            let sound = validate-IsSoundContext w r (before ++ c ∷ mid) d rest valid (
              split
              ∙ ap (λ xs. before ++ c ∷ xs) same
              ∙ sym (append_assoc before (c ∷ mid) (d ∷ rest))) in
            ground (arith, sound.unique, elem-at before c mid, eq_to c.id d.id e)
      ]

  selection_of-Grows :
      (m : OptimizationMode) (sel : Selection)
      → selection_of w r m ≡ ok sel
      → Grows (choose w m (terms w r.task) (active_ids r.context) r.context) sel
  unfolding selection_of
  selection_of-Grows m sel h i e =
      close-Grows r.context (choose w m (terms w r.task) (active_ids r.context) r.context) sel h i e

  not_deferred :
      (p : ContextPlan) (stored : Stored)
      → p.deferred
        ≡ map
            (λ (c : Context). c.id)
            (keep_if (is_deferred (size_test w counter r stored).selection) r.context)
      → elem c.id (size_test w counter r stored).selection.selected ≡ true
      → elem c.id p.deferred ≡ false
  not_deferred p stored same h = elim (Bool-cases (elem c.id p.deferred)) [
    | inr e ↦ e
    | inl e ↦ ground (
      arith,
      h,
      elem-keep_if c.id (size_test w counter r stored).selection r.context
          (subst (λ xs. elem c.id xs ≡ true) same e),
    )
  ]

  not_before :
      (stored : Stored)
      → (elem c.id stored.selection.selected ≡ true
          → elem c.id (size_test w counter r stored).selection.selected ≡ true)
      → elem c.id (size_test w counter r stored).selection.selected ≡ false
      → elem c.id stored.selection.selected ≡ false
  not_before stored f h = elim (Bool-cases (elem c.id stored.selection.selected)) [
    | inr e ↦ e
    | inl e ↦ ground (arith, f e, h)
  ]

  -- A context that policy, the current task or an open tool call retains is never deferred.
  pub plan_keeps :
      (mode : Option OptimizationMode) (s : EvidenceStore) (p : ContextPlan)
      → (plan w counter r mode s).0 ≡ ok p
      → r.context ≡ before ++ c ∷ after
      → is_kept (active_ids r.context) c ≡ true
      → elem c.id p.deferred ≡ false
  plan_keeps mode s p h split kept =
      let q = plan-Planned w counter r mode s p h in
      let m = or_mode mode r.execution.optimization in
      let first =
        All-at
          (λ x.
            is_kept (active_ids r.context) x ≡ true
            → elem x.id (choose w m (terms w r.task) (active_ids r.context) r.context).selected
              ≡ true)
          before c after
          (subst
            (All (λ x.
              is_kept (active_ids r.context) x ≡ true
              → elem x.id (choose w m (terms w r.task) (active_ids r.context) r.context).selected
                ≡ true))
            split (choose_kept w m (terms w r.task) (active_ids r.context) r.context))
          kept in
      let second = selection_of-Grows m q.selection q.chosen c.id first in
      let third = store_contexts-Grows w r.context q.selection q.stored s q.kept c.id second in
      let fourth =
        size_test-Grows w counter r q.stored c.id (before ++ c ∷ after) split
          (elem-at before c after) third in
      not_deferred p q.stored q.deferred fourth

  -- A context that is deferred can be read back exactly: in the store that the plan leaves, its
  -- digest in the plan is that of its content, and `get` of it returns the content.
  pub plan_readable :
      (mode : Option OptimizationMode) (s : EvidenceStore) (p : ContextPlan)
      → (plan w counter r mode s).0 ≡ ok p
      → r.context ≡ before ++ c ∷ after
      → elem c.id p.deferred ≡ true
      → (d : String) × (lookup c.id p.evidence ≡ some d)
        × ((Evidence.get w d (plan w counter r mode s).1).0 ≡ ok c.content)
  plan_readable mode s p h split deferred =
      let q = plan-Planned w counter r mode s p h in
      let known =
        size_test-Grows w counter r q.stored c.id (before ++ c ∷ after) split
          (elem-at before c after) in
      let out =
        elem-keep_if c.id (size_test w counter r q.stored).selection r.context
          (subst (λ xs. elem c.id xs ≡ true) q.deferred deferred) in
      let unselected = not_before q.stored known out in
      let (d, found, own, held) =
        store_contexts-IsReadable w before c after q.selection q.stored s
          (subst (λ cs. (store_contexts w cs q.selection s).0 ≡ ok q.stored) split q.kept)
          (unique_after q.valid split) unselected in
      let t = (store_contexts w r.context q.selection s).1 in
      (
        d,
        ap (λ e. lookup c.id e) q.evidence ∙ found,
        rw q.final (
            get_found w t d c.content own (
              subst
                (λ cs.
                  select_content d (store_contexts w cs q.selection s).1.evidence ≡ some c.content)
                (sym split) held)),
      )

-- The plan's first count is that of the request it sends, and is never larger than that of the
-- request with every context and tool.
pub plan_smaller :
    (w : World) (counter : TokenCounter) (r : ManagedRequest) (mode : Option OptimizationMode)
    (s : EvidenceStore) (p : ContextPlan)
    → (plan w counter r mode s).0 ≡ ok p
    → (p.initial_tokens ≡ (counter (model_bound_json w p.request) (some r.model)).value)
      × (p.initial_tokens ≤ p.baseline_tokens)
      × (p.baseline_tokens
          ≡ (counter (model_bound_json w (baseline_request w r)) (some r.model)).value)
plan_smaller w counter r mode s p h =
    let q = plan-Planned w counter r mode s p h in
    let (own, less) = size_test-exact w counter r q.stored in
    (rw q.sent (q.initial ∙ own), rw (q.initial, q.baseline) less, q.baseline)
