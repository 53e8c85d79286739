-- ===== src/Core/Recover.antt =====
-- src/llmcut/core/recover.py: evidence, its lines, and the request that an optimization began from.
pub mod Restore
pub mod Ranges
use Prim.Native.String.{◌++◌ as join}
use mathlib.Core.List.{flat_map}
use text.Mathlib.Text.{find?}
use llmcut.Prelude.{
  ℕ, zero, suc, ◌+◌, ◌-◌, min, String, Bool, true, false, ◌||◌, ◌&&◌, ◌≟◌, Option, none, some, List,
  [], ◌∷◌, ◌++◌, map, take, drop, length, any, keep_if, ltb, leb, ◌==◌, if◌then◌else◌,
}
use llmcut.Result.{Result, ok, err, or_raise, value_error, key_error, decode_error}
use llmcut.Json.{Json, str, int, ℤ, pos, negsuc, get}
use llmcut.Json.Integers.{less}
use llmcut.Exec.{Exec, ◌>>=◌, ◌>>◌, pure, raise, lift, raise_if}
use llmcut.World.{World}
use llmcut.Model.{ContextBlock, CanonicalRequest}
use llmcut.Model.Codec.{to_dict, from_dict}
use llmcut.Store.Evidence
use llmcut.Store.Evidence.{EvidenceStore}

abbrev pub join_lines : List String → String
join_lines [] = ""
join_lines (l ∷ []) = l
join_lines (l ∷ m ∷ ls) = join l (join "\n" (join_lines (m ∷ ls)))

-- `lines[start - 1 : end]`
abbrev pub line_slice : ℕ → ℕ → List String → List String
line_slice start last lines = take (last - (start - 1)) (drop (start - 1) lines)

-- a bound of a slice, once it is known to be at least 1
abbrev pub bound : ℤ → ℕ
bound (pos n) = n
bound (negsuc n) = 0

unfoldable pub source_range : World → String → ℤ → ℤ → Exec EvidenceStore String
source_range w digest start last = do
  raise_if (less start (pos 1) || less last start) (value_error "invalid 1-based line range")
  text ← Evidence.get w digest
  pure (join_lines (line_slice (bound start) (bound last) (w.split_lines text)))

-- a line with its index, from 0
abbrev numbered : ℕ → List String → List (ℕ × String)
numbered n [] = []
numbered n (l ∷ ls) = (n, l) ∷ numbered (suc n) ls

abbrev pub contains : String → String → Bool
contains line pattern = elim (find? line pattern) [ none ↦ false | some _ ↦ true ]

-- `context` lines on either side of a hit; the bound `len(lines)` is that of the lines themselves
abbrev in_window : ℕ → ℕ → ℕ → Bool
in_window context index hit = leb (hit - context) index && leb index (hit + context)

abbrev render_line : World → ℕ × String → String
render_line w (n, l) = join (w.to_str (int (pos (n + 1)))) (join ": " l)

unfoldable pub matching_lines : World → (String → Bool) → ℕ → List String → List String
matching_lines w test context lines =
    let hits = keep_if (λ (e : ℕ × String). test e.1) (numbered 0 lines) in
    map (render_line w) (
      keep_if (λ (e : ℕ × String). any (λ (h : ℕ × String). in_window context e.0 h.0) hits)
        (numbered 0 lines))

abbrev line_test : World → String → Bool → Result (String → Bool)
line_test w pattern true = or_raise (w.compile pattern) (value_error "invalid regular expression")
line_test w pattern false = ok (λ line. contains line pattern)

unfoldable pub matching : World → String → String → Bool → ℕ → Exec EvidenceStore String
unfolding matching_lines
matching w digest pattern regex context = do
  text ← Evidence.get w digest
  test ← lift (line_test w pattern regex)
  pure (join_lines (matching_lines w test context (w.split_lines text)))

-- what the text of a stored request decodes to
unfoldable pub restored : World → String → Result CanonicalRequest
restored w text = elim (w.loads text) [
  | none ↦ err (decode_error "invalid JSON")
  | some v ↦ from_dict w v
]

unfoldable pub restore_from :
    World → CanonicalRequest → Option Json → Exec EvidenceStore CanonicalRequest
restore_from w optimized (some (str digest)) = do
  text ← Evidence.get w digest
  lift (restored w text)
restore_from w optimized _ = lift (from_dict w (to_dict optimized))

unfoldable pub restore_request : World → CanonicalRequest → Exec EvidenceStore CanonicalRequest
restore_request w optimized = restore_from w optimized (get "llmcut_original" optimized.passthrough)

-- `{block.id: block for block in ...}[id]`: the last block of an identifier
unfoldable pub block_of : String → List ContextBlock → Option ContextBlock
block_of i [] = none
block_of i (b ∷ bs) = elim (block_of i bs) [
  | none ↦ if i ≟ b.id then some b else none
  | some c ↦ some c
]

abbrev reference_digest : Option ContextBlock → Option String
reference_digest none = none
reference_digest (some b) = elim b.reference [ none ↦ none | some r ↦ some r.digest ]

unfoldable pub recover_all :
    World → List ContextBlock → List String → Exec EvidenceStore (List String)
recover_all w blocks [] = pure []
recover_all w blocks (i ∷ is) = elim (reference_digest (block_of i blocks)) [
  | none ↦ recover_all w blocks is
  | some digest ↦ do
    text ← Evidence.get w digest
    rest ← recover_all w blocks is
    pure (text ∷ rest)
]

unfoldable pub dependencies : World → CanonicalRequest → String → Exec EvidenceStore (List String)
unfolding block_of recover_all
dependencies w request block_id =
    let blocks = request.blocks ++ request.tools in
    elim (block_of block_id blocks) [
      | none ↦ raise (key_error "block_id")
      | some b ↦ recover_all w blocks b.dependencies
    ]
