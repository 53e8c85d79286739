-- ===== src/Index/Content.antt =====
-- `_selected_content` of src/llmcut/index/select.py: the lines of a file that a task's symbols need.
pub mod Covered
use Prim.Native.String.{◌++◌ as join}
use text.Mathlib.Text.{find?}
use llmcut.Prelude.{
  ℕ, zero, suc, ◌+◌, ◌-◌, String, Bool, true, false, not, ◌&&◌, ◌||◌, none, some, List, [], ◌∷◌,
  map, any, keep_if, length, min, max, elem, is_empty, leb, ltb, if◌then◌else◌,
}
use llmcut.World.{World}
use llmcut.Core.Recover.{join_lines}

-- `SymbolRange`
pub record SymbolRange : Type 0 where
  pub name : String
  pub kind : String
  pub start_line : ℕ
  pub end_line : ℕ

-- a range of lines, both ends included
pub record Range : Type 0 where
  pub first : ℕ
  pub last : ℕ

-- `part in text`
abbrev pub occurs : String → String → Bool
occurs part text = elim (find? text part) [ none ↦ false | some i ↦ true ]

-- `matched`
unfoldable pub matched : World → List String → List SymbolRange → List SymbolRange
matched w terms symbols =
    keep_if (λ (s : SymbolRange). any (λ term. occurs term (w.lower s.name)) terms) symbols

abbrev pub context_lines : ℕ
context_lines = 2

-- the range of a symbol, in a file of so many lines
abbrev pub range_of : ℕ → SymbolRange → Range
range_of total s = record {
  first = max 1 (s.start_line - context_lines);
  last = min total (s.end_line + context_lines);
}

abbrev import_starts : List String
import_starts = "import " ∷ "from " ∷ "const " ∷ "export type " ∷ "interface " ∷ []

-- `line.startswith(...)`
abbrev starts_import : String → Bool
starts_import line =
    any (λ start. (elim (find? line start) [ none ↦ false | some i ↦ leb i 0 ])) import_starts

-- the loop that finds the end of the imports: a line that is none, after them, ends it
unfoldable pub import_end : World → ℕ → ℕ → List String → ℕ
import_end w index found [] = found
import_end w index found (l ∷ ls) =
    let after_import = import_end w (suc index) (suc index) ls in
    let after_other = import_end w (suc index) found ls in
    if starts_import l
    then after_import
    else if not (is_empty (w.strip l)) && ltb 0 found
    then found
    else after_other

-- whether the line of an index is selected
abbrev pub is_selected : ℕ → List Range → ℕ → Bool
is_selected imports ranges index =
    ltb index imports
    || any (λ (r : Range). leb r.first (suc index) && leb (suc index) r.last) ranges

abbrev pub omitted_line : String → String
omitted_line path = join "# … omitted lines; recoverable from " (join path " …")

-- the loop over the selected lines; `gap` is whether the line before is not among them
unfoldable pub rendered : String → (ℕ → Bool) → Bool → ℕ → List String → List String
rendered path selected gap index [] = []
rendered path selected gap index (l ∷ ls) =
    let kept = rendered path selected false (suc index) ls in
    let skipped = rendered path selected true (suc index) ls in
    if selected index then (if gap then omitted_line path ∷ l ∷ kept else l ∷ kept) else skipped

abbrev pub whole_files : List String
whole_files = "AGENTS.md" ∷ "README.md" ∷ "pyproject.toml" ∷ "package.json" ∷ "tsconfig.json" ∷ []

abbrev pub ranges_of : World → List SymbolRange → String → List Range
ranges_of w symbols content = map (range_of (length (w.split_lines content))) symbols

-- the lines that are rendered
abbrev pub lines_of : World → String → List SymbolRange → String → List String
lines_of w path symbols content =
    let lines = w.split_lines content in
    rendered path (is_selected (import_end w 0 0 lines) (ranges_of w symbols content)) true 0 lines

-- `_selected_content`
unfoldable pub selected_content :
    World → String → List SymbolRange → String → List String → String × List Range
selected_content w path symbols content terms =
    let found = matched w terms symbols in
    if leb (length found) 0 || elem (w.base_name path) whole_files
    then (content, [])
    else (join_lines (lines_of w path found content), ranges_of w found content)
