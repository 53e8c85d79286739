-- ===== src/Core/Optimize.antt =====
-- src/llmcut/core/optimize.py and src/llmcut/report.py: `Optimizer.optimize`, which deduplicates,
-- lets the mode's policy leave blocks out, counts, and falls back to the request where nothing is
-- saved. Confidences are in hundredths. The evidence store is the state.
pub mod Outcome
pub mod Selection
use Prim.Native.String.{◌++◌ as join}
use llmcut.Prelude.{
  ℕ, ◌-◌, String, Bool, true, false, not, ◌||◌, Option, none, some, List, [], ◌∷◌, ◌++◌, map, take,
  drop, leb, ltb, if◌then◌else◌, is_empty,
}
use llmcut.Result.{Result, ok, err}
use llmcut.Json.{Json, str, Fields, end, get, set}
use llmcut.Exec.{Exec, ◌>>=◌, ◌>>◌, pure, lift}
use llmcut.Json.Values.{text_of}
use llmcut.World.{World}
use llmcut.Model.{TokenCount, EvidenceReference, ContextBlock, CanonicalRequest, quality_value}
use llmcut.Model.Codec.{to_dict, to_json, from_dict}
use llmcut.Model.Bound.{model_bound_json}
use llmcut.Policy.{OptimizationMode, strict, parity, extreme, economy, Policy, validate}
use llmcut.Policy.Selection.{PolicyDecision, select_block, select_tool}
use llmcut.Store.Evidence.{EvidenceStore, put}
use llmcut.Tokens.{TokenCounter}
use llmcut.Core.Dedupe.{Duplicate, deduplicate}
use llmcut.Core.Pack.{concat, partitions, stable_prefix_digest}

pub record Decision : Type 0 where
  pub block_id : String
  pub included : Bool
  pub reason : String
  pub confidence : ℕ
  pub evidence_digest : String
  pub tokens : ℕ
  pub token_quality : String

pub record OptimizationReport : Type 0 where
  pub mode : String
  pub decisions : List Decision
  pub duplicates : List Duplicate
  pub original_tokens : ℕ
  pub optimized_tokens : ℕ
  pub attempted_tokens : ℕ
  pub effective_tokens : ℕ
  pub optimization_overhead_tokens : ℕ
  pub fallback_reason : Option String
  pub restoration_overhead_tokens : ℕ
  pub count_quality : String
  pub fallback : String
  pub stable_prefix_digest : String
  pub stable_tokens : ℕ
  pub dynamic_tokens : ℕ
  pub potential_cacheable_tokens : ℕ
  pub actual_cached_tokens : Option ℕ
  pub parity_policy_enforced : Bool
  pub outcome_parity_established : Bool

abbrev pub mode_value : OptimizationMode → String
mode_value strict = "strict"
mode_value parity = "parity"
mode_value extreme = "extreme"
mode_value economy = "economy"

-- `str(metadata.get("revision", "")) or None`
abbrev non_empty : String → Option String
non_empty s = if is_empty s then none else some s

abbrev pub metadata_revision : World → ContextBlock → Option String
metadata_revision w b = elim (get "revision" b.metadata) [
  | none ↦ none
  | some v ↦ non_empty (text_of w v)
]

-- the decision on a block: a confidence below the threshold keeps it
unfoldable pub decide : Policy → ContextBlock → PolicyDecision
decide policy b =
    let decision = select_block policy.mode b in
    if ltb decision.confidence policy.confidence_threshold
    then record {
      keep = true;
      reason = "low confidence: full content restored";
      confidence = decision.confidence;
    }
    else decision

unfoldable pub keeps_tool : Policy → ContextBlock → Bool
keeps_tool policy b =
    let decision = select_tool policy.mode b in
    ltb decision.confidence policy.confidence_threshold || decision.keep

-- a block with the reference and the count that the loop writes into it
abbrev pub annotated : TokenCounter → String → EvidenceReference → ContextBlock → ContextBlock
annotated counter model reference b = record b {
  reference = some reference;
  tokens = some (counter b.content (some model));
}

abbrev pub decision_on :
    Policy → TokenCounter → String → EvidenceReference → ContextBlock → Decision
decision_on policy counter model reference b =
    let d = decide policy (annotated counter model reference b) in
    let count = counter b.content (some model) in
    record {
      block_id = b.id;
      included = d.keep;
      reason = d.reason;
      confidence = d.confidence;
      evidence_digest = reference.digest;
      tokens = count.value;
      token_quality = quality_value count.quality;
    }

abbrev pub include_if : Bool → ContextBlock → List ContextBlock → List ContextBlock
include_if keep b bs = if keep then b ∷ bs else bs

unfoldable pub select_blocks :
    World
    → TokenCounter
    → Policy
    → String
    → List ContextBlock
    → Exec EvidenceStore (List ContextBlock × List Decision)
select_blocks w counter policy model [] = pure ([], [])
select_blocks w counter policy model (b ∷ bs) = do
  reference ← put w b.content b.source (metadata_revision w b) end
  let decision = decision_on policy counter model reference b
  rest ← select_blocks w counter policy model bs
  pure
      (include_if decision.included (annotated counter model reference b) rest.0, decision ∷ rest.1)

unfoldable pub select_tools :
    World
    → TokenCounter
    → Policy
    → String
    → List ContextBlock
    → Exec EvidenceStore (List ContextBlock)
select_tools w counter policy model [] = pure []
select_tools w counter policy model (b ∷ bs) = do
  reference ← put w b.content b.source none end
  let tool = annotated counter model reference b
  rest ← select_tools w counter policy model bs
  pure (include_if (keeps_tool policy tool) tool rest)

-- what remains, with the digest of the stored request
abbrev pub reduced :
    CanonicalRequest → List ContextBlock → List ContextBlock → String → CanonicalRequest
reduced working selected tools original = record working {
  blocks = selected;
  tools = tools;
  passthrough = set "llmcut_original" (str original) working.passthrough;
}

unfoldable pub report_on :
    World
    → TokenCounter
    → Policy
    → CanonicalRequest
    → CanonicalRequest
    → List Duplicate
    → List Decision
    → OptimizationReport
report_on w counter policy request optimized duplicates decisions =
    let model = some request.model.model in
    let before = (counter (model_bound_json w request) model).value in
    let after = counter (model_bound_json w optimized) model in
    let stable = (counter (concat (take 3 (partitions w optimized))) none).value in
    record {
      mode = mode_value policy.mode;
      decisions = decisions;
      duplicates = duplicates;
      original_tokens = before;
      optimized_tokens = after.value;
      attempted_tokens = after.value;
      effective_tokens = after.value;
      optimization_overhead_tokens = after.value - before;
      fallback_reason = none;
      restoration_overhead_tokens = 0;
      count_quality = quality_value after.quality;
      fallback = policy.fallback;
      stable_prefix_digest = stable_prefix_digest w optimized;
      stable_tokens = stable;
      dynamic_tokens = (counter (concat (drop 3 (partitions w optimized))) none).value;
      potential_cacheable_tokens = stable;
      actual_cached_tokens = none;
      parity_policy_enforced = true;
      outcome_parity_established = false;
    }

-- the size-aware fallback at the end
unfoldable pub fall_back :
    CanonicalRequest → CanonicalRequest → OptimizationReport → CanonicalRequest × OptimizationReport
fall_back request optimized report =
    if leb report.original_tokens report.optimized_tokens
    then (
      request,
      record report {
        effective_tokens = report.original_tokens;
        fallback_reason = some "attempted optimization was not smaller";
        fallback = "original_request";
      },
    )
    else (optimized, report)

-- `request.request_id or 'anonymous'`
abbrev pub request_source : Option String → String
request_source none = "request:anonymous"
request_source (some i) = join "request:" (if is_empty i then "anonymous" else i)

-- `optimize` from the two copies of the request on
unfoldable pub optimize_copies :
    World
    → TokenCounter
    → CanonicalRequest
    → Policy
    → CanonicalRequest
    → CanonicalRequest
    → Exec EvidenceStore (CanonicalRequest × OptimizationReport)
optimize_copies w counter request policy working fallback = do
  original ← put w (to_json w request) (request_source request.request_id) none end
  let (kept, duplicates) = deduplicate working.blocks
  let (tools, tool_duplicates) = deduplicate working.tools
  chosen ← select_blocks w counter policy working.model.model kept
  selected_tools ← select_tools w counter policy working.model.model tools
  let optimized = reduced working chosen.0 selected_tools original.digest
  pure (
      fall_back fallback optimized
        (report_on w counter policy request optimized (duplicates ++ tool_duplicates) chosen.1))

unfoldable pub optimize :
    World
    → TokenCounter
    → CanonicalRequest
    → Policy
    → Exec EvidenceStore (CanonicalRequest × OptimizationReport)
optimize w counter request policy = do
  lift (validate policy)
  working ← lift (from_dict w (to_dict request))
  fallback ← lift (from_dict w (to_dict request))
  optimize_copies w counter request policy working fallback
