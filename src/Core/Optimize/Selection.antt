-- ===== src/Core/Optimize/Selection.antt =====
-- What the selection loops leave out.
use llmcut.Prelude.{
  String, Bool, true, false, List, [], ◌∷◌, All, All-map, ◌≡◌, refl, sym, ◌≤◌, ◌⊎◌, inl, inr, arith,
  Bool-cases, subst,
}
use llmcut.Result.{ok, ok_inj}
use llmcut.Json.{end}
use llmcut.Exec.{>>=-eq-ok}
use llmcut.World.{World}
use llmcut.Model.{EvidenceReference, ContextBlock}
use llmcut.Model.Bound.{SameContent}
use llmcut.Policy.{Policy}
use llmcut.Policy.Selection.{select_block}
use llmcut.Store.Evidence.{EvidenceStore, put}
use llmcut.Tokens.{TokenCounter}
use llmcut.Core.Optimize.{
  Decision, decide, annotated, decision_on, include_if, select_blocks, metadata_revision,
}

module _ (counter : TokenCounter) (policy : Policy) (model : String) where
  -- The blocks that were offered, those that were chosen, and one decision for each: a chosen block
  -- has its reference and count written in, and is else unchanged.
  pub data Chosen : List ContextBlock → List ContextBlock → List Decision → Type 0 where
    done : Chosen [] [] []
    kept :
        {bs cs : List ContextBlock} {ds : List Decision} (b : ContextBlock) (r : EvidenceReference)
        → (decision_on policy counter model r b).included ≡ true
        → Chosen bs cs ds
        → Chosen
            (b ∷ bs)
            (annotated counter model r b ∷ cs)
            (decision_on policy counter model r b ∷ ds)
    omitted :
        {bs cs : List ContextBlock} {ds : List Decision} (b : ContextBlock) (r : EvidenceReference)
        → (decision_on policy counter model r b).included ≡ false
        → Chosen bs cs ds
        → Chosen (b ∷ bs) cs (decision_on policy counter model r b ∷ ds)

  Chosen-cons :
      {bs : List ContextBlock} (b : ContextBlock) (r : EvidenceReference)
      (p : List ContextBlock × List Decision)
      → Chosen bs p.0 p.1
      → Chosen
          (b ∷ bs)
          (include_if
            (decision_on policy counter model r b).included
            (annotated counter model r b)
            p.0)
          (decision_on policy counter model r b ∷ p.1)
  Chosen-cons {bs} b r p h =
      let decision = decision_on policy counter model r b in
      let goal = λ (i : Bool).
        Chosen (b ∷ bs) (include_if i (annotated counter model r b) p.0) (decision ∷ p.1) in
      elim (Bool-cases decision.included) [
        | inl e ↦ subst goal (sym e) (kept b r e h)
        | inr e ↦ subst goal (sym e) (omitted b r e h)
      ]

  pub select_blocks-Chosen :
      (w : World) (bs : List ContextBlock) (s : EvidenceStore)
      (p : List ContextBlock × List Decision)
      → (select_blocks w counter policy model bs s).0 ≡ ok p
      → Chosen bs p.0 p.1
  unfolding select_blocks
  select_blocks-Chosen w [] s p h =
      subst (λ (q : List ContextBlock × List Decision). Chosen [] q.0 q.1) (ok_inj h) done
  select_blocks-Chosen w (b ∷ bs) s p h =
      let (r, put_r, next, _) =
        >>=-eq-ok (put w b.content b.source (metadata_revision w b) end) _ s h in
      let (rest, rest_ok, last, _) = >>=-eq-ok (select_blocks w counter policy model bs) _ _ next in
      subst (λ (q : List ContextBlock × List Decision). Chosen (b ∷ bs) q.0 q.1) (ok_inj last)
        (Chosen-cons b r rest (select_blocks-Chosen w bs _ rest rest_ok))

-- a block with the identifier, the kind and the content of `b` stands among the blocks
abbrev pub Has : ContextBlock → List ContextBlock → Type 0
Has b [] = ⊥
Has b (c ∷ cs) = SameContent b c ⊎ Has b cs

-- the mode's policy leaves `b` out, at a confidence that reaches the threshold
abbrev pub Omissible : TokenCounter → Policy → String → ContextBlock → Type 0
Omissible counter policy model b =
    (r : EvidenceReference) × ((select_block policy.mode (annotated counter model r b)).keep
      ≡ false)
    × (policy.confidence_threshold
        ≤ (select_block policy.mode (annotated counter model r b)).confidence)

decide_omits :
    (policy : Policy) (b : ContextBlock)
    → (decide policy b).keep ≡ false
    → ((select_block policy.mode b).keep ≡ false)
      × (policy.confidence_threshold ≤ (select_block policy.mode b).confidence)
unfolding decide
decide_omits policy b h = ground arith

abbrev Settled : TokenCounter → Policy → String → List ContextBlock → ContextBlock → Type 0
Settled counter policy model cs b = Has b cs ⊎ Omissible counter policy model b

pub Chosen-Settled :
    (counter : TokenCounter) (policy : Policy) (model : String) {bs cs : List ContextBlock}
    {ds : List Decision}
    → Chosen counter policy model bs cs ds
    → All (Settled counter policy model cs) bs
Chosen-Settled counter policy model done = tt
Chosen-Settled counter policy model (kept {bs} b r e h) = (
  inl (inl (refl, refl, refl)),
  All-map (λ c k. elim k [ inl m ↦ inl (inr m) | inr o ↦ inr o ]) bs
      (Chosen-Settled counter policy model h),
)
Chosen-Settled counter policy model (omitted b r e h) = (
  (let o = decide_omits policy (annotated counter model r b) e in inr (r, o.0, o.1)),
  Chosen-Settled counter policy model h,
)
