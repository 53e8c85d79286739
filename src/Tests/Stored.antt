-- ===== src/Tests/Stored.antt =====
-- The store of evidence, its collection, and what a collision of digests does.
use llmcut.Prelude.{
  In, ◌↔◌, ℕ, String, true, none, some, List, [], ◌∷◌, length, ◌+◌, ◌≤◌, ◌<◌, ◌≡◌, ◌≢◌, ◌⊎◌, refl,
}
use llmcut.Result.{ok, err, integrity_error, value_error}
use llmcut.Json.{end}
use llmcut.World.{World}
use llmcut.Model.{EvidenceReference, digest_bytes}
use llmcut.Store.Database.{Row, is_referenced, select_content, insert_row, insert_reference}
use llmcut.Store.Evidence.{
  EvidenceStore, persisted, redact_for_persistence, put, get, collect, reference,
}
use llmcut.Store.Evidence.Integrity.{
  IsSound, Operation, put_op, reference_op, perform, perform_all, empty_store, get-put,
  reachable-IsSound, get-IsSound_found,
}
use llmcut.Store.Evidence.Collection.{get-collect_referenced, collect_exact, put_refusal}
use llmcut.Json.{ℤ, pos}
use llmcut.Json.Integers.{less}
use llmcut.Core.Recover.{line_slice, source_range}
use llmcut.Core.Recover.Ranges.{IsRange, source_range_exact}
use llmcut.Tests.Fixtures.{world, new_store}

-- two contents, the first one referenced, and a later collection
abbrev calls : List Operation
calls =
    put_op "one" "a.py" none end
    ∷ put_op "key=abc" "b.py" none end
    ∷ reference_op "checkpoint:1" "sha256:one"
    ∷ []

abbrev filled : EvidenceStore
filled = perform_all world calls (empty_store true)

abbrev held : EvidenceReference
held = record {
  digest = "sha256:key=[REDACTED]";
  source = "b.py";
  revision = none;
  start_line = none;
  end_line = none;
}

get-put_example :
    (get world held.digest (put world "key=abc" "b.py" none end new_store).1).0
    ≡ ok (persisted world true "key=abc")
unfolding put persisted redact_for_persistence digest_bytes select_content insert_row
get-put_example = get-put world new_store "key=abc" "b.py" none end held refl

reachable-IsSound_example : IsSound world filled
reachable-IsSound_example = reachable-IsSound world true calls

found : select_content "sha256:one" filled.evidence ≡ some "one"
unfolding perform_all perform put persisted redact_for_persistence digest_bytes select_content
    insert_row reference insert_reference
found = refl

get-IsSound_found_example : (get world "sha256:one" filled).0 ≡ ok "one"
get-IsSound_found_example =
    get-IsSound_found world filled "sha256:one" "one" (reachable-IsSound world true calls) found

get-collect_referenced_example :
    ((get world "sha256:one" (collect 9 filled).1).0 ≡ (get world "sha256:one" filled).0)
    × ((collect 9 filled).1.references ≡ filled.references)
unfolding perform_all perform put persisted redact_for_persistence digest_bytes select_content
    insert_row reference insert_reference
get-collect_referenced_example = get-collect_referenced world filled 9 "sha256:one" refl

collect_exact_example :
    ((r : Row)
      → In r (collect 9 filled).1.evidence ↔ (
          In r filled.evidence
          × ((is_referenced r.digest filled.references ≡ true) ⊎ (9 ≤ r.last_accessed))))
    × ((n : ℕ) × ((collect 9 filled).0 ≡ ok n)
        × (n + length (collect 9 filled).1.evidence ≡ length filled.evidence))
    × ((collect 9 filled).1.references ≡ filled.references)
collect_exact_example = collect_exact filled 9

-- a world in which all digests collide
abbrev colliding : World
colliding = record world { sha256 = λ t. "0" }

abbrev occupied : EvidenceStore
occupied = perform_all colliding (put_op "one" "a.py" none end ∷ []) (empty_store true)

put_refusal_example :
    (old : String) × (old ≢ persisted colliding occupied.persist_content "two")
    × (digest_bytes colliding old
        ≡ digest_bytes colliding (persisted colliding occupied.persist_content "two"))
    × ((put colliding "two" "b.py" none end occupied).1.evidence ≡ occupied.evidence)
    × ((put colliding "two" "b.py" none end occupied).1.references ≡ occupied.references)
unfolding perform_all perform put persisted redact_for_persistence digest_bytes select_content
    insert_row
put_refusal_example =
    put_refusal colliding occupied "two" "b.py" none end
      (integrity_error "cryptographic digest collision detected; evidence not overwritten")
      (reachable-IsSound colliding true (put_op "one" "a.py" none end ∷ [])) refl

source_range_exact_example :
    ((1 ≤ 2) × (2 ≤ 3)
      → (source_range world "sha256:one" (pos 2) (pos 3) filled).0 ≡ ok "second\nthird")
    × (3 < 2 ⊎ 2 < 1
        → source_range world "sha256:one" (pos 2) (pos 3) filled
          ≡ (err (value_error "invalid 1-based line range"), filled))
    × ((1 ≤ 2) × (2 ≤ 3) × (3 ≤ 3)
        → IsRange 2 3 (world.split_lines "one") (line_slice 2 3 (world.split_lines "one")))
    × ((from to : ℤ)
        → (less to from ≡ true) ⊎ (less from (pos 1) ≡ true)
        → source_range world "sha256:one" from to filled
          ≡ (err (value_error "invalid 1-based line range"), filled))
source_range_exact_example =
    source_range_exact world "sha256:one" "one" 2 3 filled
      (get-IsSound_found world filled "sha256:one" "one" (reachable-IsSound world true calls) found)
