-- ===== src/Core/Dedupe.antt =====
-- src/llmcut/core/dedupe.py: byte-identical blocks of one kind are kept once. `seen` holds the
-- canonical blocks; the dictionary's key, kind and digest, is read from them.
pub mod Laws
use llmcut.Prelude.{
  String, Bool, true, false, Option, none, some, List, [], ◌∷◌, ◌++◌, ◌&&◌, ◌≟◌, if◌then◌else◌,
}
use llmcut.Json.{get, is_false}
use llmcut.Model.{ContextBlock, kind_eq}

pub record Duplicate : Type 0 where
  pub removed_id : String
  pub retained_id : String
  pub digest : String

abbrev pub same_key : ContextBlock → ContextBlock → Bool
same_key a b = kind_eq a.kind b.kind && (a.digest ≟ b.digest)

-- `seen.get(key)`
unfoldable pub canonical_of : ContextBlock → List ContextBlock → Option ContextBlock
canonical_of b [] = none
canonical_of b (c ∷ cs) = if same_key b c then some c else canonical_of b cs

abbrev keeping :
    ContextBlock → List ContextBlock × List Duplicate → List ContextBlock × List Duplicate
keeping b (kept, removed) = (b ∷ kept, removed)

abbrev removing :
    Duplicate → List ContextBlock × List Duplicate → List ContextBlock × List Duplicate
removing d (kept, removed) = (kept, d ∷ removed)

abbrev is_unsafe : ContextBlock → Bool
is_unsafe b = is_false (get "dedupe_safe" b.metadata)

unfoldable pub dedupe_from :
    List ContextBlock → List ContextBlock → List ContextBlock × List Duplicate
unfolding canonical_of
dedupe_from seen [] = ([], [])
dedupe_from seen (b ∷ bs) =
    let rest = dedupe_from seen bs in
    let rest_seen = dedupe_from (seen ++ b ∷ []) bs in
    if is_unsafe b then keeping b rest else elim (canonical_of b seen) [
      | none ↦ keeping b rest_seen
      | some c ↦ removing (record { removed_id = b.id; retained_id = c.id; digest = b.digest }) rest
    ]

unfoldable pub deduplicate : List ContextBlock → List ContextBlock × List Duplicate
unfolding dedupe_from
deduplicate = dedupe_from []
