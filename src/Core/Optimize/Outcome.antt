-- ===== src/Core/Optimize/Outcome.antt =====
-- What `optimize` returns.
use llmcut.Prelude.{
  ℕ, none, some, List, [], ◌++◌, All, All-map, Bool-cases, ◌≡◌, refl, sym, ◌∙◌, ap, subst, subst₂,
  ◌≤◌, ◌⊎◌, inl, inr, arith, leb,
}
use llmcut.Result.{ok, ok_inj}
use llmcut.Json.{end}
use llmcut.Exec.{>>=-eq-ok, >>=-ok, lift}
use llmcut.World.{World}
use llmcut.Model.{EvidenceReference, ContextBlock, CanonicalRequest, IsDigested}
use llmcut.Model.Codec.{to_dict, to_json, from_dict}
use llmcut.Model.Codec.RoundTrip.{from_dict-to_dict}
use llmcut.Model.Bound.{model_bound_json}
use llmcut.Policy.{Policy, validate}
use llmcut.Store.Evidence.{EvidenceStore, put}
use llmcut.Tokens.{TokenCounter}
use llmcut.Core.Dedupe.{deduplicate, dedupe_from}
use llmcut.Core.Dedupe.Laws.{dedupe_induction}
use llmcut.Core.Optimize.{
  Decision, OptimizationReport, select_blocks, select_tools, reduced, report_on, fall_back,
  request_source, optimize_copies, optimize,
}
use llmcut.Core.Optimize.Selection.{Chosen, select_blocks-Chosen, Has, Omissible, Chosen-Settled}

abbrev pub IsDigestedRequest : World → CanonicalRequest → Type 0
IsDigestedRequest w r = All (IsDigested w) r.blocks × All (IsDigested w) r.tools

-- The parts of a run that returned: what each step gave, and in which state of the store.
pub record Run (w : World) (counter : TokenCounter) (request : CanonicalRequest) (policy : Policy)
    (s : EvidenceStore) (out : CanonicalRequest × OptimizationReport) : Type 0 where
  pub original : EvidenceReference
  pub chosen : List ContextBlock × List Decision
  pub tools : List ContextBlock
  pub stored :
      (put w (to_json w request) (request_source request.request_id) none end s).0 ≡ ok original
  pub chooses :
      Chosen counter policy request.model.model (deduplicate request.blocks).0 chosen.0 chosen.1
  pub result :
      out
      ≡ fall_back request (reduced request chosen.0 tools original.digest) (
          report_on w counter policy request
            (reduced request chosen.0 tools original.digest)
            ((deduplicate request.blocks).1 ++ (deduplicate request.tools).1)
            chosen.1)

module _ (w : World) (counter : TokenCounter) (request : CanonicalRequest) (policy : Policy)
    (s : EvidenceStore) (out : CanonicalRequest × OptimizationReport) where
  copies-Run :
      (optimize_copies w counter request policy request request s).0 ≡ ok out
      → Run w counter request policy s out
  unfolding optimize_copies
  copies-Run h =
      let (original, e, h1, _) =
        >>=-eq-ok (put w (to_json w request) (request_source request.request_id) none end) _ s h in
      let (chosen, chooses, h2, _) =
        >>=-eq-ok
          (select_blocks w counter policy request.model.model (deduplicate request.blocks).0) _ _
          h1 in
      let (tools, _, h3, _) =
        >>=-eq-ok (select_tools w counter policy request.model.model (deduplicate request.tools).0)
          _ _ h2 in
      record {
        original = original;
        chosen = chosen;
        tools = tools;
        stored = e;
        chooses = select_blocks-Chosen counter policy request.model.model w _ _ chosen chooses;
        result = sym (ok_inj h3);
      }

  -- A run that returned has validated its policy and worked on two copies of the request.
  pub optimize-eq-copies :
      IsDigestedRequest w request
      → (optimize w counter request policy s).0 ≡ ok out
      → optimize w counter request policy s
        ≡ optimize_copies w counter request policy request request s
  unfolding optimize
  optimize-eq-copies digested h =
      let read = from_dict-to_dict w request digested.0 digested.1 in
      let (_, _, h1, p1) = >>=-eq-ok (lift (validate policy)) _ s h in
      let (working, e1, h2, p2) = >>=-eq-ok (lift (from_dict w (to_dict request))) _ s h1 in
      let (fallback, e2, h3, p3) = >>=-eq-ok (lift (from_dict w (to_dict request))) _ s h2 in
      subst₂
        (λ x y.
          optimize w counter request policy s ≡ optimize_copies w counter request policy x y s)
        (sym (ok_inj (sym read ∙ e1))) (sym (ok_inj (sym read ∙ e2))) (p1 ∙ p2 ∙ p3)

  pub optimize-Run :
      IsDigestedRequest w request
      → (optimize w counter request policy s).0 ≡ ok out
      → Run w counter request policy s out
  optimize-Run digested h = copies-Run (ap (λ x. x.0) (sym (optimize-eq-copies digested h)) ∙ h)

  abbrev count_of : CanonicalRequest → ℕ
  count_of r = (counter (model_bound_json w r) (some request.model.model)).value

  -- The fallback is exact: the report's original count is that of the request, its effective count
  -- is that of the request that is returned, which is never the larger, and what is returned is
  -- the request itself where the reduction was no smaller.
  pub optimize_never_larger :
      IsDigestedRequest w request
      → (optimize w counter request policy s).0 ≡ ok out
      → (out.1.original_tokens ≡ count_of request)
        × (out.1.effective_tokens ≡ count_of out.0)
        × (count_of out.0 ≤ count_of request)
        × (out.1.original_tokens ≤ out.1.attempted_tokens → out.0 ≡ request)
  unfolding fall_back report_on
  optimize_never_larger digested h =
      let run = optimize-Run digested h in
      let optimized = reduced request run.chosen.0 run.tools run.original.digest in
      ground (arith, run.result)

  -- Whatever is left out, the provider, the model and its settings, the cache settings and the
  -- request's identifier are those of the request.
  pub optimize_keeps_settings :
      IsDigestedRequest w request
      → (optimize w counter request policy s).0 ≡ ok out
      → (out.0.model ≡ request.model)
        × (out.0.cache ≡ request.cache)
        × (out.0.request_id ≡ request.request_id)
  unfolding fall_back report_on
  optimize_keeps_settings digested h =
      let run = optimize-Run digested h in ground (arith, run.result)

kept-Has : (seen bs : List ContextBlock) → All (λ b. Has b bs) (dedupe_from seen bs).0
kept-Has =
    dedupe_induction (λ seen bs r. All (λ b. Has b bs) r.0) (λ seen. tt)
      (λ seen b bs r e h. (inl (refl, refl, refl), All-map (λ c k. inr k) r.0 h))
      (λ seen b bs r e g h. (inl (refl, refl, refl), All-map (λ c k. inr k) r.0 h))
      (λ seen b c bs r e g h. All-map (λ c k. inr k) r.0 h)

-- what holds of the request and of the reduced one holds of the one that is returned
pub fall_back_cases :
    (P : CanonicalRequest → Type 0) (request optimized : CanonicalRequest)
    (report : OptimizationReport)
    → P request
    → P optimized
    → P (fall_back request optimized report).0
unfolding fall_back
fall_back_cases P request optimized report p q =
    elim (Bool-cases (leb report.original_tokens report.optimized_tokens)) [
      | inl e ↦ rw (e, fall_back) p
      | inr e ↦ rw (e, fall_back) q
    ]

-- Nothing else is lost: each block that deduplication kept stands in the result with its
-- identifier, kind and content, or the mode's policy left it out at a confidence that reaches
-- the threshold.
pub optimize_keeps_blocks :
    (w : World) (counter : TokenCounter) (request : CanonicalRequest) (policy : Policy)
    (s : EvidenceStore) (out : CanonicalRequest × OptimizationReport)
    → IsDigestedRequest w request
    → (optimize w counter request policy s).0 ≡ ok out
    → All
        (λ b. Has b out.0.blocks ⊎ Omissible counter policy request.model.model b)
        (deduplicate request.blocks).0
unfolding deduplicate
optimize_keeps_blocks w counter request policy s out digested h =
    let run = optimize-Run w counter request policy s out digested h in
    let goal = λ (r : CanonicalRequest).
      All (λ b. Has b r.blocks ⊎ Omissible counter policy request.model.model b)
        (deduplicate request.blocks).0 in
    subst (λ (o : CanonicalRequest × OptimizationReport). goal o.0) (sym run.result)
      (fall_back_cases goal request _ _ (All-map (λ b k. inl k) _ (kept-Has [] request.blocks))
        (Chosen-Settled counter policy request.model.model run.chooses))

-- With a policy that is valid, the optimization of digested blocks goes on from exact copies.
pub optimize-copies :
    (w : World) (counter : TokenCounter) (request : CanonicalRequest) (policy : Policy)
    (s : EvidenceStore)
    → IsDigestedRequest w request
    → validate policy ≡ ok tt
    → optimize w counter request policy s
      ≡ optimize_copies w counter request policy request request s
unfolding optimize
optimize-copies w counter request policy s digested v =
    let read = from_dict-to_dict w request digested.0 digested.1 in
    >>=-ok (lift (validate policy)) _ s v
    ∙ (>>=-ok (lift (from_dict w (to_dict request))) _ s read
        ∙ >>=-ok (lift (from_dict w (to_dict request))) _ s read)
