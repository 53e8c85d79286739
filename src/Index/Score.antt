-- ===== src/Index/Score.antt =====
-- src/llmcut/index/score.py: how relevant a file is for a task, and why.
use Prim.Native.String.{◌++◌ as join}
use llmcut.Prelude.{
  ℕ, suc, ◌+◌, ◌*◌, String, Bool, true, false, not, ◌&&◌, List, [], ◌∷◌, ◌++◌, map, keep_if, length,
  elem, ltb, ◌≟◌, if◌then◌else◌,
}
use llmcut.World.{World}
use llmcut.Index.Content.{SymbolRange, occurs, whole_files}

-- `FileRecord` of repository.py
pub record FileRecord : Type 0 where
  pub path : String
  pub size : ℕ
  pub language : String
  pub digest : String
  pub status : String
  pub imports : List String
  pub symbols : List String
  pub parser : String
  pub binary : Bool
  pub generated : Bool
  pub vendored : Bool
  pub lock_file : Bool
  pub tests : List String
  pub symbol_ranges : List SymbolRange

pub record Score : Type 0 where
  pub value : ℕ
  pub reasons : List String

-- `len(term)`, in characters
abbrev char_count : String → ℕ
char_count String.[] = 0
char_count (String.◌∷◌ c t) = suc (char_count t)

-- the elements of a set of texts
abbrev distinct : List String → List String
distinct [] = []
distinct (t ∷ ts) = let rest = distinct ts in if elem t rest then rest else t ∷ rest

-- the terms of the task
unfoldable pub terms_of : World → String → List String
terms_of w task = distinct (map w.lower (keep_if (λ t. ltb 2 (char_count t)) (w.find_words task)))

-- `" ".join(texts)`
abbrev spaced : List String → String
spaced [] = ""
spaced (t ∷ []) = t
spaced (t ∷ u ∷ ts) = join t (join " " (spaced (u ∷ ts)))

unfoldable pub matches_of : World → FileRecord → String → List String
matches_of w r task =
    let haystack = w.lower (spaced (r.path ∷ r.symbols ++ r.imports)) in
    w.sort_texts (keep_if (λ t. occurs t haystack) (terms_of w task))

abbrev of_matches : List String → Score
of_matches matches = record {
  value = length matches * 10;
  reasons = map (λ t. join "task term: " t) matches;
}

-- what a condition adds to a score
abbrev add_if : Bool → ℕ → String → Score → Score
add_if true n reason s = record { value = s.value + n; reasons = s.reasons ++ reason ∷ [] }
add_if false n reason s = s

abbrev is_some : List String → Bool
is_some [] = false
is_some (t ∷ ts) = true

abbrev with_reason : Score → Score
with_reason s =
    if is_some s.reasons
    then s
    else record s { reasons = "no deterministic relevance evidence" ∷ [] }

-- `score`
unfoldable pub score : World → FileRecord → String → Score
score w r task =
    let matches = matches_of w r task in
    let changed = add_if (not (r.status ≟ "tracked")) 30 "changed file" (of_matches matches) in
    let instructed =
      add_if (elem (w.base_name r.path) whole_files) 100 "repository instruction/configuration"
        changed in
    with_reason (add_if (is_some r.tests && is_some matches) 5 "associated tests" instructed)
