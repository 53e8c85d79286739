-- ===== src/Managed/Planner/Choice.antt =====
-- The first loops of `ContextPlanner.plan` in src/llmcut/managed/planner.py: the tool calls that
-- are open, and each context's selection with its reason. Confidences are in hundredths.
pub mod Kept
use llmcut.Prelude.{
  ℕ, String, Bool, true, false, not, ◌||◌, ◌&&◌, Option, none, some, List, [], ◌∷◌, ◌++◌, map, any,
  elem, add, lookup, insert, erase, is_empty, leb, if◌then◌else◌,
}
use llmcut.Json.{ℤ, pos, negsuc}
use llmcut.World.{World}
use llmcut.Model.{
  BlockKind, tool_call, tool_result, current_task, kind_eq, Retention, redundant, superseded,
  retention_eq,
}
use llmcut.Policy.{OptimizationMode, strict, parity, extreme, economy}
use llmcut.Managed.Protocol.{Context, is_retained}

pub record Reason : Type 0 where
  pub text : String
  pub confidence : ℕ

-- the set `selected` and the dictionary `reasons`
pub record Selection : Type 0 where
  pub selected : List String
  pub reasons : List (String × Reason)

-- `_terms`
unfoldable pub terms : World → String → List String
terms w text = map w.lower (w.find_terms text)

-- the identifiers of the tool calls that have no result yet, by call
abbrev OpenCalls : Type 0
OpenCalls = List (String × List String)

abbrev has_call : Option String → OpenCalls → Bool
has_call none calls = false
has_call (some i) calls = elim (lookup i calls) [ none ↦ false | some _ ↦ true ]

abbrev opened : String → Option String → OpenCalls → OpenCalls
opened id none calls = calls
opened id (some i) calls = if is_empty i then calls else insert i (id ∷ []) calls

abbrev closed : Option String → OpenCalls → OpenCalls
closed none calls = calls
closed (some i) calls = erase i calls

abbrev is_opening : Context → Bool
is_opening c =
    kind_eq c.kind tool_call && elim c.tool_call_id [ none ↦ false | some i ↦ not (is_empty i) ]

abbrev is_closing : Context → OpenCalls → Bool
is_closing c calls = kind_eq c.kind tool_result && has_call c.tool_call_id calls

unfoldable pub open_calls : OpenCalls → List Context → OpenCalls
open_calls calls [] = calls
open_calls calls (c ∷ cs) =
    open_calls
      (if is_opening c
        then opened c.id c.tool_call_id calls
        else if is_closing c calls
        then closed c.tool_call_id calls
        else calls)
      cs

abbrev all_ids : OpenCalls → List String
all_ids [] = []
all_ids ((i, ids) ∷ calls) = ids ++ all_ids calls

unfoldable pub active_ids : List Context → List String
active_ids cs = all_ids (open_calls [] cs)

abbrev path_or_empty : Option String → String
path_or_empty none = ""
path_or_empty (some p) = p

-- the task names the context
unfoldable pub is_named : World → List String → Context → Bool
is_named w words c =
    any (λ t. elem t (terms w (path_or_empty c.source_path)) || elem t (terms w c.id)) words

abbrev at_least : ℕ → ℤ → Bool
at_least n (pos m) = leb n m
at_least n (negsuc m) = false

abbrev is_strict : OptimizationMode → Bool
is_strict strict = true
is_strict _ = false

abbrev is_parity : OptimizationMode → Bool
is_parity parity = true
is_parity _ = false

abbrev verdict : Bool → String → ℕ → Bool × Reason
verdict b t c = (b, record { text = t; confidence = c })

-- a context that every plan keeps: required policy, the current task, an open tool call
abbrev pub is_kept : List String → Context → Bool
is_kept active c = is_retained c.retention || kind_eq c.kind current_task || elem c.id active

unfoldable pub judge :
    World → OptimizationMode → List String → List String → Context → Bool × Reason
judge w mode words active c =
    if is_kept active c
    then verdict true "required policy, task, or tool continuity" 100
    else if is_named w words c
    then verdict true "directly named by current task" 95
    else if is_strict mode
    then verdict true "strict mode retains all context" 100
    else if is_parity mode && at_least 50 c.priority
    then verdict true "parity mode retained medium/high priority context" 85
    else if retention_eq c.retention redundant
    then verdict false "caller-declared redundant; exact evidence retained" 100
    else if retention_eq c.retention superseded
    then verdict false "superseded context deferred behind verified evidence" 95
    else verdict false "recoverable secondary evidence deferred" 90

unfoldable pub choose_from :
    World → OptimizationMode → List String → List String → Selection → List Context → Selection
choose_from w mode words active s [] = s
choose_from w mode words active s (c ∷ cs) =
    let (keep, reason) = judge w mode words active c in
    choose_from w mode words active
      (record {
        selected = if keep then add c.id s.selected else s.selected;
        reasons = insert c.id reason s.reasons;
      })
      cs

unfoldable pub choose :
    World → OptimizationMode → List String → List String → List Context → Selection
choose w mode words active cs =
    choose_from w mode words active (record { selected = []; reasons = [] }) cs
