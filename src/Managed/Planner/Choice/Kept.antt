-- ===== src/Managed/Planner/Choice/Kept.antt =====
-- What the first loop of `ContextPlanner.plan` selects.
use llmcut.Prelude.{
  String, true, List, [], ◌∷◌, elem, add, elem-add, elem-add_self, All, insert, ◌≡◌, refl,
  if◌then◌else◌, Bool-cases, inl, inr,
}
use llmcut.World.{World}
use llmcut.Policy.{OptimizationMode}
use llmcut.Managed.Protocol.{Context}
use llmcut.Managed.Planner.Choice.{Selection, is_kept, judge, choose_from, choose}

-- What the one selects the other selects.
abbrev pub Grows : Selection → Selection → Type 0
Grows s t = (i : String) → elem i s.selected ≡ true → elem i t.selected ≡ true

module _ (w : World) (mode : OptimizationMode) (words active : List String) where
  -- A context that every plan keeps is kept by the rule.
  judge_kept : (c : Context) → is_kept active c ≡ true → (judge w mode words active c).0 ≡ true
  unfolding judge
  judge_kept c h = rw (h, judge) refl

  abbrev chosen : Selection → Context → Selection
  chosen s c =
      let (keep, reason) = judge w mode words active c in
      record {
        selected = if keep then add c.id s.selected else s.selected;
        reasons = insert c.id reason s.reasons;
      }

  chosen-Grows : (s : Selection) (c : Context) → Grows s (chosen s c)
  chosen-Grows s c i h = elim (Bool-cases (judge w mode words active c).0) [
    | inl e ↦ rw e (elem-add i c.id s.selected h)
    | inr e ↦ rw e h
  ]

  choose_from-Grows :
      (s : Selection) (cs : List Context) → Grows s (choose_from w mode words active s cs)
  unfolding choose_from
  choose_from-Grows s [] i h = h
  choose_from-Grows s (c ∷ cs) i h = choose_from-Grows (chosen s c) cs i (chosen-Grows s c i h)

  choose_from_kept :
      (s : Selection) (cs : List Context)
      → All
          (λ c.
            is_kept active c ≡ true
            → elem c.id (choose_from w mode words active s cs).selected ≡ true)
          cs
  unfolding choose_from
  choose_from_kept s [] = tt
  choose_from_kept s (c ∷ cs) = (
    λ h.
        choose_from-Grows (chosen s c) cs c.id
          (rw (judge_kept c h) (elem-add_self c.id s.selected)),
    choose_from_kept (chosen s c) cs,
  )

-- Every context that each plan keeps is selected.
pub choose_kept :
    (w : World) (mode : OptimizationMode) (words active : List String) (cs : List Context)
    → All
        (λ c. is_kept active c ≡ true → elem c.id (choose w mode words active cs).selected ≡ true)
        cs
unfolding choose
choose_kept w mode words active cs =
    choose_from_kept w mode words active (record { selected = []; reasons = [] }) cs
