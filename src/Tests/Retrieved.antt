-- ===== src/Tests/Retrieved.antt =====
-- A file that a plan deferred, asked for by a provider.
use Prim.Native.String.{len}
use llmcut.Prelude.{List, String, some, true, false, none, [], ◌∷◌, ◌≡◌, refl}
use llmcut.Result.{ok}
use llmcut.Json.{Fields, field, end, str, int, pos, ℤ}
use llmcut.Core.Recover.{join_lines}
use llmcut.Model.{digest_bytes}
use llmcut.Store.Database.{select_content, touch}
use llmcut.Store.Evidence
use llmcut.Store.Evidence.{EvidenceStore, fetch}
use llmcut.Managed.Protocol.{Context}
use llmcut.Managed.Planner.{ContextPlan}
use llmcut.Managed.Planner.Closure.{context_of}
use llmcut.Managed.Retrieval.{
  RetrievalResult, Service, exceeds, is_secret, check_revision, operate, allowed, read_context,
  execute_fresh, answer, execute,
}
use llmcut.Managed.Retrieval.Operations.{
  required_string, bounded_lines, range_of, IsRangeOf, range_of-IsRangeOf,
}
use llmcut.Managed.Retrieval.Cached.{IsBounded, execute_again, execute-IsBounded}
use llmcut.Managed.Retrieval.Guarded.{IsAllowed, IsAnswer, execute_fresh-IsAllowed}
use llmcut.Tests.Fixtures.{world}
use llmcut.Tests.Planned.{asked, no_plan}

abbrev pub plan : ContextPlan
plan = record no_plan {
  deferred = "file" ∷ [];
  retrieval_operations = "evidence.get" ∷ "source.range" ∷ [];
  evidence = ("file", "sha256:a long file") ∷ [];
}

abbrev store : EvidenceStore
store = record {
  persist_content = true;
  evidence =
      record {
        digest = "sha256:a long file";
        content = "a long file";
        source = "src";
        revision = none;
        created_at = 1;
        last_accessed = 1;
        size = 11;
        metadata = end;
      }
      ∷ [];
  references = [];
  clock = 2;
}

abbrev pub service : Service
service = record { store = store; cache = [] }

abbrev pub arguments : Fields
arguments = field "id" (str "file") end

abbrev result : RetrievalResult
result = record {
  operation = "evidence.get";
  context_id = "file";
  content = "a long file";
  source = "src";
  digest = "sha256:a long file";
  revision = none;
  cached = false;
}

executed : (execute world asked plan "evidence.get" arguments service).0 ≡ ok result
unfolding execute answer execute_fresh allowed read_context operate is_secret check_revision
    required_string context_of digest_bytes select_content touch fetch Evidence.get
executed = refl

execute_again_example :
    execute world asked plan "evidence.get" arguments
      (execute world asked plan "evidence.get" arguments service).1
    ≡ (
      ok (record result { cached = true }),
      (execute world asked plan "evidence.get" arguments service).1,
    )
execute_again_example =
    execute_again world asked plan "evidence.get" arguments service result executed

execute-IsBounded_example :
    (exceeds (len "a long file") (pos 100) ≡ false)
    × IsBounded (pos 100) (execute world asked plan "evidence.get" arguments service).1
execute-IsBounded_example =
    execute-IsBounded world asked plan "evidence.get" arguments service result tt executed

execute_fresh-IsAllowed_example :
    (c : Context) × IsAllowed world asked plan c
    × IsAnswer world asked plan "evidence.get" arguments c store result
unfolding execute_fresh allowed read_context operate is_secret check_revision required_string
    context_of digest_bytes select_content touch fetch Evidence.get
execute_fresh-IsAllowed_example =
    execute_fresh-IsAllowed world asked plan "evidence.get" arguments store result refl refl

abbrev bounds : Fields
bounds = field "start" (int (pos 2)) (field "end" (int (pos 3)) end)

range_of-IsRangeOf_example :
    (from : ℤ) × (to : ℤ) × (selected : List String) × (world.to_int (int (pos 2)) ≡ some from)
    × (world.to_int (int (pos 3)) ≡ some to)
    × ("second\nthird" ≡ join_lines selected)
    × IsRangeOf (world.split_lines "first") from to selected
unfolding range_of bounded_lines
range_of-IsRangeOf_example = range_of-IsRangeOf world "first" bounds "second\nthird" refl
