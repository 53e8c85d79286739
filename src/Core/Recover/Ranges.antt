-- ===== src/Core/Recover/Ranges.antt =====
-- The line ranges of `source_range`.
use llmcut.Prelude.{
  ℕ, ◌+◌, ◌-◌, ◌≤◌, String, true, false, List, ◌++◌, take, drop, length, ◌||◌, ◌<◌, ◌⊎◌, inl, inr,
  sym, take-append-drop, length-take, length-drop, ◌≡◌, refl, ap, arith,
}
use llmcut.Result.{ok, err, value_error}
use llmcut.Exec.{>>=-ok}
use llmcut.Json.{ℤ, pos}
use llmcut.Json.Integers.{less}
use llmcut.World.{World}
use llmcut.Store.Evidence
use llmcut.Store.Evidence.{EvidenceStore}
use llmcut.Core.Recover.{join_lines, line_slice, source_range}

in_order :
    (start last : ℕ)
    → 1 ≤ start
    → start ≤ last
    → (less (pos start) (pos 1) || less (pos last) (pos start)) ≡ false
in_order start last h k = ground arith

out_of_order :
    (start last : ℤ)
    → (less last start ≡ true) ⊎ (less start (pos 1) ≡ true)
    → (less start (pos 1) || less last start) ≡ true
out_of_order start last (inl e) = ground (arith, e)
out_of_order start last (inr e) = ground (arith, e)

less_naturals :
    (start last : ℕ)
    → last < start ⊎ start < 1
    → (less (pos last) (pos start) ≡ true) ⊎ (less (pos start) (pos 1) ≡ true)
less_naturals start last (inl h) = inl (ground (arith, h))
less_naturals start last (inr h) = inr (ground (arith, h))

refuses :
    (w : World) (digest : String) (start last : ℤ) (s : EvidenceStore)
    → (less last start ≡ true) ⊎ (less start (pos 1) ≡ true)
    → source_range w digest start last s ≡ (err (value_error "invalid 1-based line range"), s)
unfolding source_range
refuses w digest start last s h = rw (out_of_order start last h) refl

-- A range of lines with nothing missing: what stands before it has `start - 1` lines, and it has
-- those from `start` to `last`.
pub record IsRange (start last : ℕ) (lines chosen : List String) : Type 0 where
  pub before : List String
  pub after : List String
  pub parts : lines ≡ before ++ (chosen ++ after)
  pub begins : length before + 1 ≡ start
  pub ends : length chosen + start ≡ last + 1

pub line_slice-IsRange :
    (start last : ℕ) (lines : List String)
    → 1 ≤ start
    → start ≤ last
    → last ≤ length lines
    → IsRange start last lines (line_slice start last lines)
line_slice-IsRange start last lines h k m = record {
  before = take (start - 1) lines;
  after = drop (last - (start - 1)) (drop (start - 1) lines);
  parts =
      rw (take-append-drop (last - (start - 1)) (drop (start - 1) lines))
        (sym (take-append-drop (start - 1) lines));
  begins = omega (arith, length-take {0} (start - 1) lines);
  ends = omega (
    arith,
    length-take {0} (last - (start - 1)) (drop (start - 1) lines),
    length-drop {0} (start - 1) lines,
  );
}

-- `source_range` raises on a start before line 1 or after the end, negative ones included, and on nothing
-- else once the evidence is read; a range inside the evidence gives the lines from `start` to `last`.
pub source_range_exact :
    (w : World) (digest text : String) (start last : ℕ) (s : EvidenceStore)
    → (Evidence.get w digest s).0 ≡ ok text
    → ((1 ≤ start) × (start ≤ last)
        → (source_range w digest (pos start) (pos last) s).0
          ≡ ok (join_lines (line_slice start last (w.split_lines text))))
      × (last < start ⊎ start < 1
          → source_range w digest (pos start) (pos last) s
            ≡ (err (value_error "invalid 1-based line range"), s))
      × ((1 ≤ start) × (start ≤ last) × (last ≤ length (w.split_lines text))
          → IsRange start last (w.split_lines text) (line_slice start last (w.split_lines text)))
      × ((from to : ℤ)
          → (less to from ≡ true) ⊎ (less from (pos 1) ≡ true)
          → source_range w digest from to s ≡ (err (value_error "invalid 1-based line range"), s))
unfolding source_range
source_range_exact w digest text start last s read = (
  λ h. rw (in_order start last h.0 h.1) (ap (λ x. x.0) (>>=-ok (Evidence.get w digest) _ s read)),
  λ h. refuses w digest (pos start) (pos last) s (less_naturals start last h),
  λ h. line_slice-IsRange start last (w.split_lines text) h.0 h.1 h.2,
  λ from to h. refuses w digest from to s h,
)
