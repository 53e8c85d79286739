-- ===== src/Tests/Modelled.antt =====
-- Requests written and read, deduplication, packing, policies, counters and history.
use Prim.Native.String.{◌++◌ as join}
use llmcut.Prelude.{
  List, String, Option, true, none, some, [], ◌∷◌, ◌++◌, length, lookup, ◌+◌, ◌≡◌, ◌≢◌, ◌↔◌, refl,
  All,
}
use llmcut.Result.{ok}
use llmcut.Json.{str, boolean, field, end, obj, pos}
use llmcut.Model.{
  CanonicalRequest, ContextBlock, new_block, digest_bytes, system, user, tool_call, tool_result,
  command_output, TokenCount, provider_reported, estimated, kind_eq,
}
use llmcut.Model.Codec.{to_dict, from_dict}
use llmcut.Model.Codec.RoundTrip.{from_dict-to_dict}
use llmcut.Model.Bound.{model_bound_json, model_bound_json-SameContents}
use llmcut.Core.Dedupe.{deduplicate}
use llmcut.Core.Dedupe.Laws.{has_key, names, deduplicate_lossless}
use llmcut.Core.Pack.{group_of, stable_prefix_digest, stable_prefix_digest-insert}
use llmcut.Core.History.{
  Checkpoint, compact_history, verify_all, open_after, checkpoint_block, payload_of,
}
use llmcut.Core.History.Compacted.{IsCompaction, AreAnswered, compact_history-IsCompaction}
use llmcut.Tokens.{conservative_estimator}
use llmcut.Tokens.Registry.{
  CounterRegistry, count_transport, provider_count, fresh_count, tokenizer_for,
}
use llmcut.Tokens.Measurement.{
  TokenMeasurement, eligible, measured, count_payload, reported, live_provider, count_endpoint,
}
use llmcut.Tokens.Measurement.Sources.{IsSource, count_payload-IsSource}
use llmcut.Tests.Fixtures.{world, request, three_blocks, block, new_store}

from_dict-to_dict_example : from_dict world (to_dict request) ≡ ok request
unfolding digest_bytes
from_dict-to_dict_example = from_dict-to_dict world request (refl, (refl, (refl, tt))) tt

-- the request with other sources and digests
abbrev moved : CanonicalRequest
moved = record request {
  blocks = block "policy" system "be exact" (field "k" (str "v") end) ∷ [];
  request_id = none;
}

abbrev unmoved : CanonicalRequest
unmoved = record request { blocks = block "policy" system "be exact" end ∷ [] }

model_bound_json-SameContents_example :
    model_bound_json world moved ≡ model_bound_json world unmoved
model_bound_json-SameContents_example =
    model_bound_json-SameContents world moved unmoved refl ((refl, refl, refl), tt) tt

deduplicate_lossless_example :
    All (λ b. has_key b (deduplicate three_blocks).0 ≡ true) three_blocks
    × All (λ d. names (deduplicate three_blocks).0 d ≡ true) (deduplicate three_blocks).1
    × (length (deduplicate three_blocks).0 + length (deduplicate three_blocks).1 ≡ 3)
deduplicate_lossless_example = deduplicate_lossless three_blocks

abbrev turn : ContextBlock
turn = block "turn" user "go on" end

stable_prefix_digest-insert_example :
    stable_prefix_digest world (record request { blocks = three_blocks ++ turn ∷ [] })
    ≡ stable_prefix_digest world (record request { blocks = three_blocks ++ [] })
unfolding group_of
stable_prefix_digest-insert_example =
    stable_prefix_digest-insert world request turn three_blocks [] refl

abbrev proved : ContextBlock
proved = block "old" command_output "text" (field "proven_redundant" (boolean true) end)

abbrev registry : CounterRegistry
registry = record {
  estimate = conservative_estimator;
  endpoints = ("openai", λ d. ok (some (pos 7))) ∷ [];
  tokenizers = [];
  compatible = [];
  cache = [];
  version = "1";
}

abbrev saved : Checkpoint
saved = record {
  objective = "o";
  constraints = [];
  decisions = [];
  rejected_alternatives = [];
  rationale = [];
  evidence = [];
  changed_files = [];
  unresolved_questions = [];
  validation_commands = [];
  validation_results = [];
  failures = [];
  repository_revision = some "abc";
  remaining_work = [];
  id = "1";
}

abbrev twice : String → String
twice s = join s s

abbrev file_text : String
file_text = twice (twice (twice (twice (twice "the text of the file, "))))

-- a history with a call that has its result
abbrev history : List ContextBlock
history =
    block "policy" system "be exact" end
    ∷ block "call" tool_call "read the file that the task names"
        (field "tool_call_id" (str "1") end)
    ∷ block "result" tool_result file_text (field "tool_call_id" (str "1") end)
    ∷ []

abbrev compacted : List ContextBlock
compacted = block "policy" system "be exact" end ∷ checkpoint_block world saved ∷ []

compact_history-IsCompaction_example :
    IsCompaction world history saved (compacted, true) × AreAnswered history
unfolding compact_history verify_all open_after checkpoint_block payload_of kind_eq new_block
compact_history-IsCompaction_example =
    compact_history-IsCompaction world history saved (some "abc") new_store (compacted, true) refl

abbrev seven : TokenCount
seven = record { value = 7; quality = provider_reported; method = "provider count endpoint" }

abbrev counted : TokenMeasurement
counted = measured world "openai" "m" end "t" "1" seven

estimated_always :
    (t : String) (n : Option String) → (conservative_estimator t n).quality ≡ estimated
unfolding conservative_estimator
estimated_always t n = refl

payload_counted : (count_payload world "openai" "m" end "t" registry).0 ≡ ok counted
unfolding count_payload count_transport fresh_count provider_count measured
payload_counted = refl

count_payload-IsSource_example :
    IsSource
      (lookup "openai" registry.endpoints)
      (tokenizer_for "openai" "m" [])
      (lookup "openai" registry.compatible)
      registry.estimate
      end
      (world.dumps (obj end))
      "m"
      counted.quality
      counted.value
    × (eligible counted ≡ true)
    × (counted.quality ≢ reported)
    × (counted.trust ≡ live_provider ↔ counted.quality ≡ count_endpoint)
    × ((count_payload world "openai" "m" end "u"
          (count_payload world "openai" "m" end "t" registry).1).0
        ≡ ok (record counted { timestamp = "u" }))
count_payload-IsSource_example =
    count_payload-IsSource world "openai" "m" end "t" "u" registry counted refl estimated_always
      payload_counted
