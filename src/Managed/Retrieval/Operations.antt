-- ===== src/Managed/Retrieval/Operations.antt =====
-- The functions `_range`, `_search`, `_symbol` and `_required_string` of
-- src/llmcut/managed/retrieval.py.
use Prim.Native.String.{◌++◌ as join, count}
use llmcut.Prelude.{
  zero, suc, refl, ◌∙◌, ◌⊎◌, Option-cases, ℕ, ◌+◌, ◌-◌, min, max, String, Bool, true, false, not,
  ◌&&◌, ◌||◌, Option, some, List, [], ◌∷◌, keep_if, take, length, is_empty, ltb, ◌==◌,
  if◌then◌else◌, ◌≡◌, sym, ap, subst, arith, ◌≤◌, inl, inr, Bool-cases,
}
use llmcut.Result.{
  Result, ok, err, ◌>>=◌, ◌>>◌, raise_if, or_raise, retrieval_error, value_error, pattern_error,
  >>=-eq-ok, ok_inj,
}
use llmcut.Json.{Json, int, boolean, str, ℤ, pos, negsuc, Fields, get, truthy}
use llmcut.Json.Values.{get_or}
use llmcut.World.{World}
use llmcut.Core.Recover.Ranges.{IsRange, line_slice-IsRange}
use llmcut.Core.Recover.{join_lines, line_slice, contains}

abbrev required_text : Option Json → Result String
required_text (some (str s)) =
    if is_empty s || ltb 256 (count s)
    then err (retrieval_error "argument must be a bounded non-empty string")
    else ok s
required_text _ = err (retrieval_error "argument must be a bounded non-empty string")

-- `_required_string`
unfoldable pub required_string : Fields → String → Result String
required_string arguments key = required_text (get key arguments)

abbrev to_integer : World → Json → Result ℤ
to_integer w v = or_raise (w.to_int v) (value_error "int")

-- `end or len(lines)`
abbrev or_count : ℤ → ℕ → ℤ
or_count (pos m) n = if m == 0 then pos n else pos m
or_count (negsuc m) n = negsuc m

-- the lines from `start` to `last`, where the bounds allow them
unfoldable pub bounded_lines : ℤ → ℤ → List String → Result (List String)
bounded_lines (pos start) (pos last) lines =
    if ltb start 1 || ltb last start || ltb 2000 ((last - start) + 1) || ltb (length lines) last
    then err (retrieval_error "invalid or oversized 1-based line range")
    else ok (line_slice start last lines)
bounded_lines _ _ lines = err (retrieval_error "invalid or oversized 1-based line range")

-- `_range`
unfoldable pub range_of : World → String → Fields → Result String
range_of w content arguments = do
  start ← to_integer w (get_or "start" (int (pos 1)) arguments)
  last ← to_integer w (get_or "end" (int (pos 0)) arguments)
  let lines = w.split_lines content
  selected ← bounded_lines start (or_count last (length lines)) lines
  ok (join_lines selected)

abbrev is_safe : World → String → Bool
is_safe w pattern = w.full_match "[\\w\\s./:@+*?^$|()[\\]{}\\\\=-]+" pattern

-- patterns with nested repetition, a back reference or a look-around
abbrev is_risky : World → String → Bool
is_risky w pattern =
    w.search_exactly "\\([^)]*[*+][^)]*\\)[*+{]" pattern
    || w.search_exactly "\\\\[1-9]|\\(\\?[=!<]" pattern

abbrev matcher : World → String → Bool → Result (String → Bool)
matcher w pattern true = or_raise (w.compile pattern) (pattern_error "invalid regular expression")
matcher w pattern false = ok (λ line. contains line pattern)

-- `min(max(limit, 1), 100)`
abbrev clamped : ℤ → ℕ
clamped (pos n) = min (max n 1) 100
clamped (negsuc n) = 1

-- `_search`
unfoldable pub search_in : World → String → Fields → Result String
search_in w content arguments = do
  pattern ← required_string arguments "pattern"
  raise_if (ltb 256 (count pattern) || not (is_safe w pattern))
      (retrieval_error "unsafe or oversized search pattern")
  let regex = truthy (get_or "regex" (boolean false) arguments)
  raise_if (regex && is_risky w pattern) (retrieval_error "unsafe or oversized search pattern")
  test ← matcher w pattern regex
  limit ← to_integer w (get_or "limit" (int (pos 20)) arguments)
  ok (join_lines (take (clamped limit) (keep_if test (w.split_lines content))))

-- the first line that passes a test, with what follows it
unfoldable pub from_first : (String → Bool) → List String → List String
from_first test [] = []
from_first test (l ∷ ls) = if test l then l ∷ ls else from_first test ls

abbrev declares : World → String → String → Bool
declares w symbol line =
    w.search_exactly
      (join "\\b(?:class|def|function|const|let|var)\\s+" (join (w.escape symbol) "\\b")) line

abbrev at_most_200 : List String → Result String
at_most_200 [] = err (retrieval_error "symbol not found")
at_most_200 (l ∷ ls) = ok (join_lines (take 200 (l ∷ ls)))

-- `_symbol`
unfoldable pub symbol_in : World → String → String → Result String
symbol_in w content symbol = at_most_200 (from_first (declares w symbol) (w.split_lines content))

-- `int(arguments.get("end", 0)) or len(lines)`
abbrev pub EndsAt : ℤ → ℕ → ℕ → Type 0
EndsAt given total last = (given ≡ pos last) ⊎ ((given ≡ pos 0) × (last ≡ total))

bounds_of :
    (start last n : ℕ)
    → (ltb start 1 || ltb last start || ltb 2000 ((last - start) + 1) || ltb n last) ≡ false
    → (1 ≤ start) × (start ≤ last) × (last ≤ n) × ((last - start) + 1 ≤ 2000)
bounds_of start last n h = ground arith

pos_inj : {m n : ℕ} → pos m ≡ pos n → m ≡ n
pos_inj {m} h = ap (λ z. elim z [ pos k ↦ k | negsuc k ↦ m ]) h

not_zero : (m : ℕ) → (suc m == 0) ≡ false
not_zero m = ground arith

or_count-EndsAt :
    (given : ℤ) (total last : ℕ) → or_count given total ≡ pos last → EndsAt given total last
or_count-EndsAt (pos zero) total last h = inr (refl, sym (pos_inj h))
or_count-EndsAt (pos (suc m)) total last h =
    inl (subst (λ b. (if b then pos total else pos (suc m)) ≡ pos last) (not_zero m) h)
or_count-EndsAt (negsuc m) total last h = inl h

-- a range of a text: its first and last line, by the integers that ask for them, and its lines
abbrev pub IsRangeOf : List String → ℤ → ℤ → List String → Type 0
IsRangeOf lines from to selected =
    (start : ℕ) × (last : ℕ) × (from ≡ pos start)
    × EndsAt to (length lines) last
    × (1 ≤ start)
    × (start ≤ last)
    × (last ≤ length lines)
    × ((last - start) + 1 ≤ 2000)
    × IsRange start last lines selected

bounded_lines-IsRangeOf :
    (from given last : ℤ) (lines selected : List String)
    → last ≡ or_count given (length lines)
    → bounded_lines from last lines ≡ ok selected
    → IsRangeOf lines from given selected
unfolding bounded_lines
bounded_lines-IsRangeOf (pos start) given (pos last) lines selected e h =
    let test =
      ltb start 1 || ltb last start || ltb 2000 ((last - start) + 1) || ltb (length lines) last in
    elim (Bool-cases test) [
      | inl b ↦ ground (arith, b)
      | inr b ↦
          let same = ok_inj (
            (subst
              (λ t.
                (if t
                  then err (retrieval_error "invalid or oversized 1-based line range")
                  else ok (line_slice start last lines))
                ≡ ok selected)
              b h)) in
          let (p, q, r, small) = bounds_of start last (length lines) b in
          (
            start,
            last,
            refl,
            or_count-EndsAt given (length lines) last (sym e),
            p,
            q,
            r,
            small,
            subst (IsRange start last lines) same (line_slice-IsRange start last lines p q r),
          )
    ]
bounded_lines-IsRangeOf (pos start) given (negsuc last) lines selected e h = ground arith
bounded_lines-IsRangeOf (negsuc start) given last lines selected e h = ground arith

int_read : (w : World) (v : Json) (n : ℤ) → to_integer w v ≡ ok n → w.to_int v ≡ some n
int_read w v n h = elim (Option-cases (w.to_int v)) [
  | inl e ↦ ground (arith, e, h)
  | inr (m, e) ↦
      e ∙ ap some (ok_inj (subst (λ (o : Option ℤ). or_raise o (value_error "int") ≡ ok n) e h))
]

-- A range that is read has the lines of the text from the one that the argument `start` asks for, which is
-- 1 where it is missing, to the one that `end` asks for, which is the last where it is missing or 0. It lies
-- within the text and has at most 2,000 lines.
pub range_of-IsRangeOf :
    (w : World) (content : String) (arguments : Fields) (text : String)
    → range_of w content arguments ≡ ok text
    → (from : ℤ) × (to : ℤ) × (selected : List String) × (w.to_int
          (get_or "start" (int (pos 1)) arguments)
        ≡ some from)
      × (w.to_int (get_or "end" (int (pos 0)) arguments) ≡ some to)
      × (text ≡ join_lines selected)
      × IsRangeOf (w.split_lines content) from to selected
unfolding range_of
range_of-IsRangeOf w content arguments text h =
    let (from, e, h1) = >>=-eq-ok (to_integer w (get_or "start" (int (pos 1)) arguments)) _ h in
    let (to, f, h2) = >>=-eq-ok (to_integer w (get_or "end" (int (pos 0)) arguments)) _ h1 in
    let lines = w.split_lines content in
    let (selected, g, h3) =
      >>=-eq-ok (bounded_lines from (or_count to (length lines)) lines) _ h2 in
    (
      from,
      to,
      selected,
      int_read w (get_or "start" (int (pos 1)) arguments) from e,
      int_read w (get_or "end" (int (pos 0)) arguments) to f,
      sym (ok_inj h3),
      bounded_lines-IsRangeOf from to (or_count to (length lines)) lines selected refl g,
    )
