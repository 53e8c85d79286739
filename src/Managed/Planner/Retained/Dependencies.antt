-- ===== src/Managed/Planner/Retained/Dependencies.antt =====
-- The dependencies of the contexts that `ContextPlanner.plan` keeps, the current task among them.
use llmcut.Prelude.{
  String, true, false, Option, none, some, List, [], ◌∷◌, ◌++◌, elem, eq_iff, eq_refl, ◌≡◌, refl,
  sym, ap, ◌∙◌, subst, inl, inr, All, arith,
}
use llmcut.Result.{ok, err, key_error}
use llmcut.World.{World}
use llmcut.Policy.{OptimizationMode}
use llmcut.Store.Evidence.{EvidenceStore}
use llmcut.Tokens.{TokenCounter}
use llmcut.Managed.Protocol.{Context, ManagedRequest, validate}
use llmcut.Managed.Protocol.Cycles.Order.{All-elem}
use llmcut.Managed.Protocol.Validity.{ids_of, validate-IsSoundContext}
use llmcut.Managed.Planner.Choice.{Selection, terms, choose, active_ids, is_kept}
use llmcut.Managed.Planner.Choice.Kept.{choose_kept}
use llmcut.Managed.Planner.Closure.{context_of}
use llmcut.Managed.Planner.Closure.Ends.{
  IsLookedUp, IsSettled, IsClosed, close-IsLookedUp, close-IsClosed,
}
use llmcut.Managed.Planner.{or_mode, selection_of, plan}
use llmcut.Managed.Planner.Retained.{fresh_after, unique_after, selection_of-Grows, All-at}

some_inj : {c d : Context} → some c ≡ some d → c ≡ d
some_inj {c} h = ap (λ o. elim o [ none ↦ c | some x ↦ x ]) h

context_of_absent :
    (i : String) (cs : List Context) → elem i (ids_of cs) ≡ false → context_of i cs ≡ none
unfolding context_of
context_of_absent i [] h = refl
context_of_absent i (c ∷ cs) h = rw (context_of_absent i cs (ground (arith, h))) (ground (arith, h))

context_of_at :
    (before : List Context) (c : Context) (after : List Context)
    → elem c.id (ids_of after) ≡ false
    → context_of c.id (before ++ c ∷ after) ≡ some c
unfolding context_of
context_of_at [] c after h = rw (context_of_absent c.id after h, eq_refl c.id) refl
context_of_at (b ∷ before) c after h = rw (context_of_at before c after h) refl

module _ (w : World) (r : ManagedRequest) where
  -- No context of a validated request is named like the current task.
  no_task : validate w r ≡ ok tt → context_of "current-task" r.context ≡ none
  no_task valid = context_of_absent "current-task" r.context (
      fresh_after "current-task" r.context λ mid d rest same.
        (let sound = validate-IsSoundContext w r mid d rest valid same in
          ground (arith, sound.no_task, eq_iff "current-task" d.id, eq_iff d.id "current-task")))

module _ (w : World) (counter : TokenCounter) (r : ManagedRequest) (before : List Context)
    (c : Context) (after : List Context) where
  selection_of-IsLookedUp : (m : OptimizationMode) → IsLookedUp (selection_of w r m)
  unfolding selection_of
  selection_of-IsLookedUp m =
      close-IsLookedUp r.context (choose w m (terms w r.task) (active_ids r.context) r.context)

  selection_of-IsClosed :
      (m : OptimizationMode) (sel : Selection)
      → selection_of w r m ≡ ok sel
      → IsClosed r.context sel
  unfolding selection_of
  selection_of-IsClosed m sel h =
      close-IsClosed r.context (choose w m (terms w r.task) (active_ids r.context) r.context) sel h

  -- A context that each plan keeps is in the selection that the loops return.
  kept_selected :
      (m : OptimizationMode) (sel : Selection)
      → r.context ≡ before ++ c ∷ after
      → is_kept (active_ids r.context) c ≡ true
      → selection_of w r m ≡ ok sel
      → elem c.id sel.selected ≡ true
  kept_selected m sel split kept h =
      let P = λ (x : Context).
        is_kept (active_ids r.context) x ≡ true
        → elem x.id (choose w m (terms w r.task) (active_ids r.context) r.context).selected
          ≡ true in
      selection_of-Grows w counter r before c after m sel h c.id (
        All-at P before c after
          (subst (All P) split (choose_kept w m (terms w r.task) (active_ids r.context) r.context))
          kept)

  -- what a closed selection says of the dependencies of a context that it holds
  own_dependencies :
      (sel : Selection)
      → validate w r ≡ ok tt
      → r.context ≡ before ++ c ∷ after
      → IsClosed r.context sel
      → elem c.id sel.selected ≡ true
      → All (IsSettled r.context sel) c.dependencies
  own_dependencies sel valid split closed known =
      let P = λ (i : String).
        (d : Context) × (context_of i r.context ≡ some d)
        × All (IsSettled r.context sel) d.dependencies in
      let (d, found, settled) = All-elem P c.id sel.selected closed known in
      let own =
        subst (λ cs. context_of c.id cs ≡ some c) (sym split)
          (context_of_at before c after (unique_after w counter r before c after valid split)) in
      subst (λ (x : Context). All (IsSettled r.context sel) x.dependencies)
        (some_inj (sym found ∙ own)) settled

  depends_on_task :
      (m : OptimizationMode)
      → validate w r ≡ ok tt
      → r.context ≡ before ++ c ∷ after
      → is_kept (active_ids r.context) c ≡ true
      → elem "current-task" c.dependencies ≡ true
      → selection_of w r m ≡ err (key_error "by_id")
  depends_on_task m valid split kept depends = elim (selection_of-IsLookedUp m) [
    | inr e ↦ e
    | inl (sel, e) ↦
        let settled =
          own_dependencies sel valid split (selection_of-IsClosed m sel e)
            (kept_selected m sel split kept e) in
        let (d, found, _) =
          All-elem (IsSettled r.context sel) "current-task" c.dependencies settled depends in
        ground (arith, no_task w r valid, found)
  ]

  -- A validated request in which a context that every plan keeps depends on the current task has no
  -- plan: `plan` raises a `KeyError`, and the store stays as it was.
  pub plan_current_task :
      (mode : Option OptimizationMode) (s : EvidenceStore)
      → validate w r ≡ ok tt
      → r.context ≡ before ++ c ∷ after
      → is_kept (active_ids r.context) c ≡ true
      → elem "current-task" c.dependencies ≡ true
      → plan w counter r mode s ≡ (err (key_error "by_id"), s)
  unfolding plan
  plan_current_task mode s valid split kept depends =
      rw (valid, depends_on_task (or_mode mode r.execution.optimization) valid split kept depends)
        refl
