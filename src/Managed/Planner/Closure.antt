-- ===== src/Managed/Planner/Closure.antt =====
-- The loop `while changed` of `ContextPlanner.plan`: what the selected contexts depend on is
-- selected too, unless it is recoverable. Each round that changes something selects a context that
-- was not selected, so that the fuel, one more than the contexts, is enough.
pub mod Fixpoint
pub mod Ends
use Prim.Native.String.{◌++◌ as join}
use llmcut.Prelude.{
  ℕ, zero, suc, String, Bool, true, false, not, ◌||◌, ◌&&◌, Option, none, some, List, [], ◌∷◌, ◌++◌,
  elem, insert, length, ◌≟◌, if◌then◌else◌,
}
use llmcut.Result.{Result, ok, err, ◌>>=◌, or_raise, key_error, execution_error}
use llmcut.Model.{Retention, recoverable, retention_eq}
use llmcut.Managed.Protocol.{Context}
use llmcut.Managed.Planner.Choice.{Reason, Selection}

-- `by_id[identifier]`: the last context of an identifier; `none` is the `KeyError`
unfoldable pub context_of : String → List Context → Option Context
context_of i [] = none
context_of i (c ∷ cs) = elim (context_of i cs) [
  | some d ↦ some d
  | none ↦ if i ≟ c.id then some c else none
]

-- a selection, and whether a round has changed it
abbrev pub Round : Type 0
Round = Selection × Bool

abbrev pub wants : Selection → String → Context → Bool
wants s d c = not (elem d s.selected) && not (retention_eq c.retention recoverable)

abbrev pub select_dependency : String → String → Context → Round → Round
select_dependency i d c (s, changed) =
    if wants s d c
    then (
      record {
        selected = s.selected ++ d ∷ [];
        reasons = insert d (record { text = join "dependency of " i; confidence = 100 }) s.reasons;
      },
      true,
    )
    else (s, changed)

-- the innermost loop, over the dependencies of one context
unfoldable pub scan_dependencies : List Context → String → List String → Round → Result Round
scan_dependencies cs i [] r = ok r
scan_dependencies cs i (d ∷ ds) r = or_raise (context_of d cs) (key_error "by_id") >>= λ c.
    scan_dependencies cs i ds (select_dependency i d c r)

-- the loop over `tuple(selected)`
unfoldable pub scan : List Context → List String → Round → Result Round
scan cs [] r = ok r
scan cs (i ∷ is) r = or_raise (context_of i cs) (key_error "by_id") >>= λ c.
    scan_dependencies cs i c.dependencies r >>= λ r'. scan cs is r'

-- rounds until one changes nothing; running out of fuel is an error of its own
unfoldable pub rounds : ℕ → List Context → Selection → Result Selection
rounds zero cs s = err (execution_error "out of fuel")
rounds (suc fuel) cs s =
    scan cs s.selected (s, false) >>= λ r. elim r.1 [ true ↦ rounds fuel cs r.0 | false ↦ ok r.0 ]

unfoldable pub close : List Context → Selection → Result Selection
close cs s = rounds (suc (length cs)) cs s
