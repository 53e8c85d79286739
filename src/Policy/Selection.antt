-- ===== src/Policy/Selection.antt =====
-- src/llmcut/core/policies.py: what each mode may leave out, and why.
use llmcut.Prelude.{
  ℕ, String, Bool, true, false, none, some, ◌&&◌, if◌then◌else◌, ◌≡◌, ◌≤◌, arith, Bool-cases, inl,
  inr, refl, sym, ◌∙◌,
}
use mathlib.Core.Bool.{false≢true}
use llmcut.Json.{get, is_true, is_text}
use llmcut.Model.{repository, command_output, checkpoint, ContextBlock, kind_eq}
use llmcut.Policy.{OptimizationMode, strict, parity, extreme, economy}

pub record PolicyDecision : Type 0 where
  pub keep : Bool
  pub reason : String
  pub confidence : ℕ

abbrev decide_to : Bool → String → ℕ → PolicyDecision
decide_to b r c = record { keep = b; reason = r; confidence = c }

abbrev has_reference : ContextBlock → Bool
has_reference b = elim b.reference [ none ↦ false | some _ ↦ true ]

unfoldable pub strict_block : ContextBlock → PolicyDecision
strict_block b = decide_to true "strict mode retains all unique content" 100

unfoldable pub strict_tool : ContextBlock → PolicyDecision
strict_tool b = decide_to true "tool retained" 100

unfoldable pub parity_block : ContextBlock → PolicyDecision
parity_block b =
    if is_true (get "proven_redundant" b.metadata)
    then decide_to false "caller-proven redundancy with recoverable evidence" 100
    else if kind_eq b.kind checkpoint && is_true (get "superseded" b.metadata)
    then decide_to false "verified superseded checkpoint" 100
    else if kind_eq b.kind command_output
        && is_true (get "represented_by_verified_structure" b.metadata)
    then decide_to false "raw command output has verified structured representation" 100
    else decide_to true "parity policy found no proven recoverable omission" 50

-- what the extreme mode asks of a repository range and of a tool
abbrev is_irrelevant : ContextBlock → Bool
is_irrelevant b =
    is_true (get "task_irrelevant" b.metadata)
    && is_text "high" (get "confidence" b.metadata)
    && has_reference b

unfoldable pub extreme_block : ContextBlock → PolicyDecision
extreme_block b =
    let decision = parity_block b in
    if decision.keep
    then (if kind_eq b.kind repository && is_irrelevant b
        then decide_to false "deterministically task-irrelevant repository range" 95
        else decide_to true "extreme policy failed open on uncertain content" 50)
    else decision

unfoldable pub extreme_tool : ContextBlock → PolicyDecision
extreme_tool b =
    if is_irrelevant b
    then decide_to false "task-scoped tool omitted with immediate recovery" 95
    else decide_to true "tool relevance uncertain; retained" 50

-- `selection_policy(policy).block`
unfoldable pub select_block : OptimizationMode → ContextBlock → PolicyDecision
select_block extreme b = extreme_block b
select_block parity b = parity_block b
select_block _ b = strict_block b

-- `selection_policy(policy).tool`
unfoldable pub select_tool : OptimizationMode → ContextBlock → PolicyDecision
select_tool extreme b = extreme_tool b
select_tool _ b = strict_tool b

parity_confident :
    (b : ContextBlock) → (parity_block b).keep ≡ false → (parity_block b).confidence ≡ 100
unfolding parity_block
parity_confident b h = ground arith

extreme_confident :
    (b : ContextBlock) → (extreme_block b).keep ≡ false → 95 ≤ (extreme_block b).confidence
unfolding extreme_block
extreme_confident b h = elim (Bool-cases (parity_block b).keep) [
  | inl kept ↦ elim (Bool-cases (kind_eq b.kind repository && is_irrelevant b)) [
    | inl e ↦ rw (kept, e, extreme_block) (omega arith)
    | inr e ↦ absurd (false≢true (sym h ∙ rw (kept, e, extreme_block) refl))
  ]
  | inr omitted ↦ rw (omitted, extreme_block, parity_confident b omitted) (omega arith)
]

tool_confident :
    (b : ContextBlock) → (extreme_tool b).keep ≡ false → 95 ≤ (extreme_tool b).confidence
unfolding extreme_tool
tool_confident b h = elim (Bool-cases (is_irrelevant b)) [
  | inl e ↦ rw (e, extreme_tool) (omega arith)
  | inr e ↦ absurd (false≢true (sym h ∙ rw (e, extreme_tool) refl))
]

-- An omission that a mode decides always has a confidence of 0.95 or more, for blocks and tools.
omission_confident :
    (m : OptimizationMode) (b : ContextBlock)
    → ((select_block m b).keep ≡ false → 95 ≤ (select_block m b).confidence)
      × ((select_tool m b).keep ≡ false → 95 ≤ (select_tool m b).confidence)
unfolding select_block select_tool
omission_confident strict b = unfold strict_block strict_tool in ground arith
omission_confident parity b =
    (λ h. omega (arith, parity_confident b h), λ h. unfold strict_tool in ground arith)
omission_confident extreme b = (extreme_confident b, tool_confident b)
omission_confident economy b = unfold strict_block strict_tool in ground arith

-- What parity mode leaves out, extreme mode leaves out too, for the same reason.
extreme_extends_parity :
    (b : ContextBlock)
    → (select_block parity b).keep ≡ false
    → select_block extreme b ≡ select_block parity b
unfolding select_block extreme_block
extreme_extends_parity b h = ground arith
