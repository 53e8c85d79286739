-- ===== src/Core/Recover/Restore.antt =====
-- An optimized request restores the request that it came from.
use llmcut.Prelude.{String, none, some, List, [], ◌∷◌, ◌≡◌, ◌⊎◌, inl, inr, sym, ◌∙◌, ap, subst}
use llmcut.Result.{Result, ok, err}
use llmcut.Json.Lookups.{get-set_self}
use llmcut.Json.{str, end, get}
use llmcut.Exec.{Exec, proceed, >>=-ok, lift, ◌>>=◌}
use llmcut.World.{World}
use llmcut.Model.{digest_bytes, EvidenceReference, ContextBlock, CanonicalRequest}
use llmcut.Model.Codec.{to_dict, to_json}
use llmcut.Json.Sorted.{sort_keys}
use llmcut.Model.Codec.RoundTrip.{from_dict-to_dict}
use llmcut.Model.Codec.RoundTrip.Sorted.{sort_request, from_dict-sort_keys}
use llmcut.Policy.{Policy}
use llmcut.Store.Database.{select_content}
use llmcut.Store.Evidence
use llmcut.Store.Evidence.{EvidenceStore, persisted, put}
use llmcut.Store.Evidence.Extends.{
  Extends, Extends-refl, Extends-trans, put-Extends, put-stored, get_found,
}
use llmcut.Tokens.{TokenCounter}
use llmcut.Core.Optimize.{
  OptimizationReport, metadata_revision, select_blocks, select_tools, request_source,
  optimize_copies, optimize,
}
use llmcut.Core.Optimize.Outcome.{
  IsDigestedRequest, optimize-Run, optimize-eq-copies, fall_back_cases,
}
use llmcut.Core.Dedupe.{deduplicate}
use llmcut.Core.Recover.{restored, restore_from, restore_request}

module _ {A B : Type 0} where
  -- the store that a bind leaves extends the store that its first part leaves
  bind-Extends :
      (m : Exec EvidenceStore A) (f : A → Exec EvidenceStore B) (s : EvidenceStore)
      → Extends s (m s).1
      → ((a : A) (t : EvidenceStore) → Extends t (f a t).1)
      → Extends s ((m >>= f) s).1
  bind-Extends m f s em ef = go (m s) em
    where
      go : (p : Result A × EvidenceStore) → Extends s p.1 → Extends s (proceed p f).1
      go (ok a, t) e = Extends-trans s t (f a t).1 e (ef a t)
      go (err x, t) e = e

module _ (w : World) (counter : TokenCounter) (policy : Policy) (model : String) where
  select_blocks-Extends :
      (bs : List ContextBlock) (s : EvidenceStore)
      → Extends s (select_blocks w counter policy model bs s).1
  unfolding select_blocks
  select_blocks-Extends [] s = Extends-refl s
  select_blocks-Extends (b ∷ bs) s =
      bind-Extends (put w b.content b.source (metadata_revision w b) end) _ s
        (put-Extends w s b.content b.source (metadata_revision w b) end)
        (λ r t.
          bind-Extends (select_blocks w counter policy model bs) _ t (select_blocks-Extends bs t)
            (λ _ u. Extends-refl u))

  select_tools-Extends :
      (bs : List ContextBlock) (s : EvidenceStore)
      → Extends s (select_tools w counter policy model bs s).1
  unfolding select_tools
  select_tools-Extends [] s = Extends-refl s
  select_tools-Extends (b ∷ bs) s =
      bind-Extends (put w b.content b.source none end) _ s
        (put-Extends w s b.content b.source none end)
        (λ r t.
          bind-Extends (select_tools w counter policy model bs) _ t (select_tools-Extends bs t)
            (λ _ u. Extends-refl u))

-- `optimize` keeps the evidence that its first `put` stores
copies-Extends :
    (w : World) (counter : TokenCounter) (request : CanonicalRequest) (policy : Policy)
    (s : EvidenceStore) (original : EvidenceReference)
    → (put w (to_json w request) (request_source request.request_id) none end s).0 ≡ ok original
    → Extends
        (put w (to_json w request) (request_source request.request_id) none end s).1
        (optimize_copies w counter request policy request request s).1
unfolding optimize_copies
copies-Extends w counter request policy s original e =
    let stored = put w (to_json w request) (request_source request.request_id) none end in
    let model = request.model.model in
    subst
      (λ (x : Result (CanonicalRequest × OptimizationReport) × EvidenceStore).
        Extends (stored s).1 x.1)
      (sym (>>=-ok stored _ s e))
      (bind-Extends (select_blocks w counter policy model (deduplicate request.blocks).0) _
        (stored s).1
        (select_blocks-Extends w counter policy model (deduplicate request.blocks).0 (stored s).1)
        (λ chosen u.
          bind-Extends (select_tools w counter policy model (deduplicate request.tools).0) _ u
            (select_tools-Extends w counter policy model (deduplicate request.tools).0 u)
            (λ _ v. Extends-refl v)))

module _ (w : World) (request : CanonicalRequest) (t : EvidenceStore) where
  -- what restoring a returned request gives: the request itself, or the request with the keys of its
  -- free dictionaries sorted
  abbrev pub Restorable : CanonicalRequest → Type 0
  Restorable r =
      ((restore_request w r t).0 ≡ ok request)
      ⊎ ((restore_request w r t).0 ≡ ok (sort_request request))

  Restorable-self :
      IsDigestedRequest w request
      → get "llmcut_original" request.passthrough ≡ none
      → Restorable request
  unfolding restore_request
  Restorable-self digested unmarked =
      inl (rw unmarked (unfold restore_from in from_dict-to_dict w request digested.0 digested.1))

  Restorable-mark :
      (r : CanonicalRequest) (digest : String)
      → IsDigestedRequest w request
      → w.loads (to_json w request) ≡ some (sort_keys (to_dict request))
      → get "llmcut_original" r.passthrough ≡ some (str digest)
      → digest ≡ digest_bytes w (to_json w request)
      → select_content digest t.evidence ≡ some (to_json w request)
      → Restorable r
  unfolding restore_request restored restore_from
  Restorable-mark r digest digested reads mark own found =
      let text = to_json w request in
      let step =
        >>=-ok (Evidence.get w digest) (λ x. lift (restored w x)) t
          (get_found w t digest text own found) in
      inr (
        rw mark (
          ap (λ x. x.0) step
          ∙ rw (reads, restored) (from_dict-sort_keys w request digested.0 digested.1)))

-- Restoring undoes the optimization: in any store that extends the one that `optimize` left, the
-- returned request restores the request that was optimized, or that request with the keys of its
-- metadata, parameters, reasoning, cache and passthrough dictionaries sorted. The conditions: each block
-- and tool has the digest of its content, no mark of an earlier optimization, redaction leaves the
-- request's JSON alone, and `json.loads` reads that JSON back with the keys that it was written with,
-- which are sorted.
pub restore-optimize :
    (w : World) (counter : TokenCounter) (request : CanonicalRequest) (policy : Policy)
    (s t : EvidenceStore) (out : CanonicalRequest × OptimizationReport)
    → IsDigestedRequest w request
    → get "llmcut_original" request.passthrough ≡ none
    → persisted w s.persist_content (to_json w request) ≡ to_json w request
    → w.loads (to_json w request) ≡ some (sort_keys (to_dict request))
    → (optimize w counter request policy s).0 ≡ ok out
    → Extends (optimize w counter request policy s).1 t
    → Restorable w request t out.0
restore-optimize w counter request policy s t out digested unmarked plain reads h later =
    let run = optimize-Run w counter request policy s out digested h in
    let copies = optimize-eq-copies w counter request policy s out digested h in
    let text = to_json w request in
    let source = request_source request.request_id in
    let (own, found) = put-stored w s text source none end run.original run.stored in
    let kept = copies-Extends w counter request policy s run.original run.stored in
    let found_later = later run.original.digest text (
      subst
        (λ (x : Result (CanonicalRequest × OptimizationReport) × EvidenceStore).
          select_content run.original.digest x.1.evidence ≡ some text)
        (sym copies) (kept run.original.digest text (found ∙ ap some plain))) in
    subst (λ (o : CanonicalRequest × OptimizationReport). Restorable w request t o.0)
      (sym run.result)
      (fall_back_cases (Restorable w request t) request _ _
        (Restorable-self w request t digested unmarked)
        (Restorable-mark w request t _ run.original.digest digested reads
          (get-set_self "llmcut_original" (str run.original.digest) request.passthrough)
          (own ∙ ap (digest_bytes w) plain) found_later))
