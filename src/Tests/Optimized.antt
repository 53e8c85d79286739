-- ===== src/Tests/Optimized.antt =====
-- The optimizer on three blocks: one is a duplicate, and one is proved redundant.
use llmcut.Prelude.{true, none, some, [], length, ◌≡◌, refl, ap, ◌∙◌, All, ◌≤◌, ◌⊎◌}
use llmcut.Result.{Result, ok, err}
use llmcut.Json.{get}
use llmcut.Policy.{default_policy, validate}
use llmcut.Policy.Selection.{select_block, select_tool, parity_block, extreme_block}
use llmcut.Model.{
  CanonicalRequest, digest_bytes, kind_value, kind_eq, retention_value, quality_value,
}
use llmcut.Model.Codec.{to_dict, to_json}
use llmcut.Model.Bound.{model_bound_json, model_bound_dict}
use llmcut.Store.Database.{select_content, insert_row}
use llmcut.Store.Evidence.{EvidenceStore, put, persisted, redact_for_persistence}
use llmcut.Core.Dedupe.{deduplicate, dedupe_from, canonical_of}
use llmcut.Core.Pack.{group_of, members, partitions, stable_prefix_digest}
use llmcut.Core.Optimize.{
  OptimizationReport, decide, keeps_tool, select_blocks, select_tools, report_on, fall_back,
  optimize_copies, optimize,
}
use llmcut.Core.Optimize.Selection.{Has, Omissible}
use llmcut.Core.Optimize.Outcome.{
  IsDigestedRequest, optimize-copies, optimize_never_larger, optimize_keeps_settings,
  optimize_keeps_blocks,
}
use llmcut.Store.Evidence.Extends.{Extends-refl}
use llmcut.Core.Recover.Restore.{Restorable, restore-optimize}
use llmcut.Json.Sorted.{sort_keys}
use llmcut.Tests.Fixtures.{world, bytes, request, new_store}

abbrev run : Result (CanonicalRequest × OptimizationReport) × EvidenceStore
run = optimize_copies world bytes request default_policy request request new_store

abbrev given :
    Result (CanonicalRequest × OptimizationReport)
    → CanonicalRequest × OptimizationReport
    → CanonicalRequest × OptimizationReport
given (ok out) other = out
given (err e) other = other

-- what the optimizer returns for the request
abbrev optimized : CanonicalRequest × OptimizationReport
optimized =
    given run.0
      (fall_back request request (report_on world bytes default_policy request request [] []))

digested : IsDigestedRequest world request
unfolding digest_bytes
digested = ((refl, (refl, (refl, tt))), tt)

runs : run.0 ≡ ok optimized
unfolding optimize_copies put persisted redact_for_persistence select_content insert_row
    digest_bytes to_json to_dict deduplicate dedupe_from canonical_of select_blocks select_tools
    decide keeps_tool select_block select_tool parity_block extreme_block report_on fall_back
    model_bound_json model_bound_dict kind_value kind_eq retention_value quality_value
    stable_prefix_digest partitions members group_of
runs = refl

returned : (optimize world bytes request default_policy new_store).0 ≡ ok optimized
unfolding validate
returned =
    ap (λ x. x.0) (optimize-copies world bytes request default_policy new_store digested refl)
    ∙ runs

-- One of the three blocks is sent.
one_kept : length optimized.0.blocks ≡ 1
unfolding optimize_copies put persisted redact_for_persistence select_content insert_row
    digest_bytes to_json to_dict deduplicate dedupe_from canonical_of select_blocks select_tools
    decide keeps_tool select_block select_tool parity_block extreme_block report_on fall_back
    model_bound_json model_bound_dict kind_value kind_eq retention_value quality_value
    stable_prefix_digest partitions members group_of
one_kept = refl

unmarked : get "llmcut_original" request.passthrough ≡ none
unmarked = refl

clean : persisted world true (to_json world request) ≡ to_json world request
unfolding persisted redact_for_persistence to_json to_dict kind_value retention_value quality_value
clean = refl

optimize_never_larger_example :
    (optimized.1.original_tokens ≡ (bytes (model_bound_json world request) (some "m")).value)
    × (optimized.1.effective_tokens ≡ (bytes (model_bound_json world optimized.0) (some "m")).value)
    × ((bytes (model_bound_json world optimized.0) (some "m")).value
        ≤ (bytes (model_bound_json world request) (some "m")).value)
    × (optimized.1.original_tokens ≤ optimized.1.attempted_tokens → optimized.0 ≡ request)
optimize_never_larger_example =
    optimize_never_larger world bytes request default_policy new_store optimized digested returned

optimize_keeps_settings_example :
    (optimized.0.model ≡ request.model)
    × (optimized.0.cache ≡ request.cache)
    × (optimized.0.request_id ≡ some "r1")
optimize_keeps_settings_example =
    optimize_keeps_settings world bytes request default_policy new_store optimized digested returned

optimize_keeps_blocks_example :
    All
      (λ b. Has b optimized.0.blocks ⊎ Omissible bytes default_policy "m" b)
      (deduplicate request.blocks).0
optimize_keeps_blocks_example =
    optimize_keeps_blocks world bytes request default_policy new_store optimized digested returned

-- the JSON of the request is read with its keys sorted
read_back : world.loads (to_json world request) ≡ some (sort_keys (to_dict request))
unfolding to_json to_dict kind_value retention_value quality_value
read_back = refl

restore-optimize_example :
    Restorable world request (optimize world bytes request default_policy new_store).1 optimized.0
restore-optimize_example =
    restore-optimize world bytes request default_policy new_store
      (optimize world bytes request default_policy new_store).1 optimized digested unmarked clean
      read_back returned (Extends-refl (optimize world bytes request default_policy new_store).1)
