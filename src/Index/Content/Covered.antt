-- ===== src/Index/Content/Covered.antt =====
-- What the lines that `_selected_content` of src/llmcut/index/select.py keeps are.
use llmcut.Prelude.{
  ℕ, zero, suc, ◌+◌, ◌≤◌, String, Bool, true, false, ◌&&◌, leb, Option, none, some, List, [], ◌∷◌,
  ◌++◌, any, map, length, elem, eq_refl, ◌≡◌, refl, ap, subst, arith,
}
use llmcut.World.{World}
use llmcut.Index.Content.{
  SymbolRange, Range, range_of, is_selected, rendered, import_end, ranges_of, lines_of,
}

-- the line of an index
abbrev pub line_at : ℕ → List String → Option String
line_at n [] = none
line_at zero (l ∷ ls) = some l
line_at (suc n) (l ∷ ls) = line_at n ls

some_inj : {a b : String} → some a ≡ some b → a ≡ b
some_inj {a} h = ap (λ o. elim o [ none ↦ a | some x ↦ x ]) h

shifted : (a b : ℕ) → a + suc b ≡ suc a + b
shifted a b = omega arith

-- A line whose index is selected is rendered.
rendered-elem :
    (path : String) (selected : ℕ → Bool) (gap : Bool) (index n : ℕ) (ls : List String)
    (line : String)
    → line_at n ls ≡ some line
    → selected (index + n) ≡ true
    → elem line (rendered path selected gap index ls) ≡ true
unfolding rendered
rendered-elem path selected gap index n [] line h e = ground (arith, h)
rendered-elem path selected gap index zero (l ∷ ls) line h e =
    ground (arith, e, some_inj h, eq_refl line)
rendered-elem path selected gap index (suc n) (l ∷ ls) line h e =
    let next = subst (λ k. selected k ≡ true) (shifted index n) e in
    ground (
      arith,
      rendered-elem path selected false (suc index) n ls line h next,
      rendered-elem path selected true (suc index) n ls line h next,
    )

-- whether the line of an index is in a range
abbrev is_in : ℕ → Range → Bool
is_in index r = leb r.first (suc index) && leb (suc index) r.last

is_in-range_of :
    (total n : ℕ) (s : SymbolRange)
    → s.start_line ≤ suc n
    → suc n ≤ s.end_line
    → suc n ≤ total
    → is_in n (range_of total s) ≡ true
is_in-range_of total n s from to below = grind (arith, from, to, below)

-- A line of a symbol is in the range of one of the symbols.
any-ranges :
    (total n : ℕ) (s : SymbolRange) (before after : List SymbolRange)
    → is_in n (range_of total s) ≡ true
    → any (is_in n) (map (range_of total) (before ++ s ∷ after)) ≡ true
any-ranges total n s [] after h = rw h refl
any-ranges total n s (b ∷ before) after h = ground (arith, any-ranges total n s before after h)

length-line_at :
    (n : ℕ) (ls : List String) (line : String) → line_at n ls ≡ some line → suc n ≤ length ls
length-line_at n [] line h = ground (arith, h)
length-line_at zero (l ∷ ls) line h = omega arith
length-line_at (suc n) (l ∷ ls) line h = omega (arith, length-line_at n ls line h)

-- Each line of the file that is within a symbol's lines is among the lines that are rendered for symbols of
-- which it is one.
pub lines_of-covers :
    (w : World) (path content : String) (s : SymbolRange) (before after : List SymbolRange) (n : ℕ)
    (line : String)
    → line_at n (w.split_lines content) ≡ some line
    → s.start_line ≤ suc n
    → suc n ≤ s.end_line
    → elem line (lines_of w path (before ++ s ∷ after) content) ≡ true
lines_of-covers w path content s before after n line h from to =
    let lines = w.split_lines content in
    let symbols = before ++ s ∷ after in
    let imports = import_end w 0 0 lines in
    let inside = is_in-range_of (length lines) n s from to (length-line_at n lines line h) in
    rendered-elem path (is_selected imports (ranges_of w symbols content)) true 0 n lines line h
      (ground (arith, any-ranges (length lines) n s before after inside))
