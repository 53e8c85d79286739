-- ===== src/Managed/Protocol/Cycles/Fuel.antt =====
-- The search ends within its fuel, and it reports a cycle only where there is one.
use mathlib.Core.Bool.{false≢true}
use llmcut.Prelude.{
  ℕ, zero, suc, ◌≤◌, ◌<◌, String, true, false, not, List, [], ◌∷◌, keep_if, elem, length, ◌≟◌, ◌≡◌,
  ◌≢◌, ◌↔◌, refl, sym, subst, arith, eq_iff, eq_refl, Bool-cases, inl, inr,
}
use llmcut.Result.{Error, Result, ok, err}
use llmcut.Managed.Protocol.Cycles.{
  Graph, targets, Visit, cyclic, exhausted, finished, visit_all, finish, visit, nodes, search,
  reject_cycles,
}
use llmcut.Managed.Protocol.Cycles.Order.{
  Visit-cases, Walk, edge, onward, node_of_target, acyclic_of_finished,
}

finished≢cyclic : {v : List String} → finished v ≡ cyclic → ⊥
finished≢cyclic h = cc

exhausted≢cyclic : exhausted ≡ cyclic → ⊥
exhausted≢cyclic h = cc

ok≢err : {e : Error} → Path (Result (Unit {0})) (ok tt) (err e) → ⊥
ok≢err h = cc

-- the nodes that are not on the path
abbrev off_path : List String → List String → ℕ
off_path visiting xs = length (keep_if (λ k. not (elem k visiting)) xs)

off_path-le :
    (i : String) (visiting xs : List String) → off_path (i ∷ visiting) xs ≤ off_path visiting xs
off_path-le i visiting [] = omega arith
off_path-le i visiting (x ∷ xs) = ground (arith, off_path-le i visiting xs)

off_path-lt :
    (i : String) (visiting xs : List String)
    → elem i xs ≡ true
    → elem i visiting ≡ false
    → off_path (i ∷ visiting) xs < off_path visiting xs
off_path-lt i visiting [] h new = absurd (false≢true h)
off_path-lt i visiting (x ∷ xs) h new =
    ground (arith, off_path-lt i visiting xs, off_path-le i visiting xs, eq_iff i x, eq_iff x i)

visit_all-ends :
    (go : List String → String → Visit) (visited ds : List String)
    → ((v : List String) (d : String) → elem d ds ≡ true → go v d ≢ exhausted)
    → visit_all go visited ds ≢ exhausted
visit_all-ends go visited [] h = λ e. cc
visit_all-ends go visited (d ∷ ds) h = elim (Visit-cases (go visited d)) [
  | inl (v, e) ↦ rw (e, visit_all) (visit_all-ends go v ds (λ u x k. h u x (ground (arith, k))))
  | inr (inl e) ↦ rw (e, visit_all) (λ x. cc)
  | inr (inr e) ↦ absurd (h visited d (ground (arith, eq_refl d)) e)
]

finish-ends : (i : String) (r : Visit) → r ≢ exhausted → finish i r ≢ exhausted
finish-ends i (finished v) h = λ x. cc
finish-ends i cyclic h = λ x. cc
finish-ends i exhausted h = h

-- With more fuel than nodes off the path a visit ends.
visit_enough :
    (fuel : ℕ) (g : Graph) (visiting visited : List String) (i : String)
    → off_path visiting (nodes g) < fuel
    → visit fuel g visiting visited i ≢ exhausted
unfolding visit
visit_enough zero g visiting visited i h = elim h [ ]
visit_enough (suc fuel) g visiting visited i h = elim (Bool-cases (elem i visiting)) [
  | inl e ↦ rw (e, visit) (λ x. cc)
  | inr e ↦ elim (Bool-cases (elem i visited)) [
    | inl k ↦ rw (e, k, visit) (λ x. cc)
    | inr k ↦
        rw (e, k, visit)
          (finish-ends i _ (
            visit_all-ends _ visited (targets i g) (λ v d m.
              visit_enough fuel g (i ∷ visiting) v d
                (omega (arith, off_path-lt i visiting (nodes g) (node_of_target g i d m) e)))))
  ]
]

off_path-nil : (g : Graph) → off_path [] (nodes g) ≡ length g
off_path-nil [] = refl
off_path-nil ((i, ds) ∷ g) = omega (arith, off_path-nil g)

-- The search of any graph ends within its fuel.
pub search-ends : (g : Graph) → search g ≢ exhausted
unfolding search
search-ends g =
    visit_all-ends (visit (suc (length g)) g []) [] (nodes g)
      (λ v d m. visit_enough (suc (length g)) g [] v d (omega (arith, off_path-nil g)))

-- the path leads to the node
abbrev Leads : Graph → List String → String → Type 0
Leads g visiting i = (x : String) → elem x visiting ≡ true → Walk g x i

abbrev pub Cycle : Graph → Type 0
Cycle g = (i : String) × Walk g i i

visit_all-Cycle :
    (g : Graph) (go : List String → String → Visit) (visited ds : List String)
    → ((v : List String) (d : String) → elem d ds ≡ true → go v d ≡ cyclic → Cycle g)
    → visit_all go visited ds ≡ cyclic
    → Cycle g
visit_all-Cycle g go visited [] f h = absurd (finished≢cyclic h)
visit_all-Cycle g go visited (d ∷ ds) f h = elim (Visit-cases (go visited d)) [
  | inl (v, e) ↦
      visit_all-Cycle g go v ds (λ u x k. f u x (ground (arith, k))) (rw (e, visit_all) at h)
  | inr (inl e) ↦ f visited d (ground (arith, eq_refl d)) e
  | inr (inr e) ↦ absurd (exhausted≢cyclic (rw (e, visit_all) at h))
]

finish-cyclic : (i : String) (r : Visit) → finish i r ≡ cyclic → r ≡ cyclic
finish-cyclic i (finished v) h = absurd (finished≢cyclic h)
finish-cyclic i cyclic h = refl
finish-cyclic i exhausted h = absurd (exhausted≢cyclic h)

extend_path :
    (g : Graph) (visiting : List String) (i d : String)
    → Leads g visiting i
    → elem d (targets i g) ≡ true
    → Leads g (i ∷ visiting) d
extend_path g visiting i d leads m x h = elim (Bool-cases (x ≟ i)) [
  | inl e ↦ subst (λ y. Walk g y d) (sym ((eq_iff x i).0 e)) (edge d m)
  | inr e ↦ onward i d (leads x (ground (arith, e))) m
]

visit-Cycle :
    (fuel : ℕ) (g : Graph) (visiting visited : List String) (i : String)
    → Leads g visiting i
    → visit fuel g visiting visited i ≡ cyclic
    → Cycle g
unfolding visit
visit-Cycle zero g visiting visited i leads h = absurd (exhausted≢cyclic h)
visit-Cycle (suc fuel) g visiting visited i leads h = elim (Bool-cases (elem i visiting)) [
  | inl e ↦ (i, leads i e)
  | inr e ↦ elim (Bool-cases (elem i visited)) [
    | inl k ↦ absurd (finished≢cyclic (rw (e, k, visit) at h))
    | inr k ↦
        visit_all-Cycle g (visit fuel g (i ∷ visiting)) visited (targets i g)
          (λ v d m. visit-Cycle fuel g (i ∷ visiting) v d (extend_path g visiting i d leads m))
          (finish-cyclic i _ (rw (e, k, visit) at h))
  ]
]

-- `_reject_cycles` accepts a graph exactly if no node reaches itself by dependencies, and raises
-- exactly if some node does.
pub reject_cycles_exact :
    (g : Graph)
    → ((reject_cycles g ≡ ok tt) ↔ ((i : String) → ¬ (Walk g i i)))
      × ((e : Error) → reject_cycles g ≡ err e → Cycle g)
unfolding reject_cycles search
reject_cycles_exact g = elim (Visit-cases (search g)) [
  | inl (v, e) ↦ (
    (λ _. acyclic_of_finished g v e, λ _. rw (e, reject_cycles) refl),
    λ x h. absurd (ok≢err (rw (e, reject_cycles) at h)),
  )
  | inr (inl e) ↦
      let cycle =
        visit_all-Cycle g (visit (suc (length g)) g []) [] (nodes g)
          (λ v d m. visit-Cycle (suc (length g)) g [] v d (λ x k. absurd (false≢true k))) e in
      (
        (λ h. absurd (ok≢err (sym (rw (e, reject_cycles) at h))), λ f. absurd (f cycle.0 cycle.1)),
        λ x h. cycle,
      )
  | inr (inr e) ↦ absurd (search-ends g e)
]
