-- ===== src/Tests/Closed.antt =====
-- The loop over dependencies on two contexts, and a request with a context that depends on the task.
use llmcut.Prelude.{none, List, [], ◌∷◌, ◌≡◌, refl}
use llmcut.Result.{ok, err, key_error}
use llmcut.Model.{system, user, required, superseded, kind_eq, retention_eq}
use llmcut.Managed.Protocol.{Context, ManagedRequest, validate, is_identifier}
use llmcut.Managed.Protocol.Cycles.{reject_cycles}
use llmcut.Managed.Planner.{plan}
use llmcut.Managed.Planner.Choice.{Selection, active_ids}
use llmcut.Managed.Planner.Closure.{close, rounds, scan, scan_dependencies, context_of}
use llmcut.Managed.Planner.Closure.Ends.{IsLookedUp, IsClosed, close-IsLookedUp, close-IsClosed}
use llmcut.Managed.Planner.Retained.Dependencies.{plan_current_task}
use llmcut.Tests.Fixtures.{world, bytes, new_store}
use llmcut.Tests.Planned.{context, asked}

abbrev contexts : List Context
contexts =
    context "policy" system required "be exact" ("rules" ∷ [])
    ∷ context "rules" user superseded "the rules" []
    ∷ []

abbrev chosen : Selection
chosen = record { selected = "policy" ∷ []; reasons = [] }

abbrev closed : Selection
closed = record {
  selected = "policy" ∷ "rules" ∷ [];
  reasons = ("rules", record { text = "dependency of policy"; confidence = 100 }) ∷ [];
}

close-IsLookedUp_example : IsLookedUp (close contexts chosen)
close-IsLookedUp_example = close-IsLookedUp contexts chosen

closed_ok : close contexts chosen ≡ ok closed
unfolding close rounds scan scan_dependencies context_of retention_eq
closed_ok = refl

close-IsClosed_example : IsClosed contexts closed
close-IsClosed_example = close-IsClosed contexts chosen closed closed_ok

abbrev of_task : Context
of_task = context "policy" system required "be exact" ("current-task" ∷ [])

abbrev request_of_task : ManagedRequest
request_of_task = record asked { context = of_task ∷ [] }

valid : validate world request_of_task ≡ ok tt
unfolding validate llmcut.Managed.Protocol.check_settings llmcut.Managed.Protocol.check_contexts
    llmcut.Managed.Protocol.check_context is_identifier kind_eq llmcut.Managed.Protocol.Cycles.edges
    llmcut.Managed.Protocol.Cycles.search llmcut.Managed.Protocol.Cycles.visit reject_cycles
    llmcut.Managed.Protocol.check_tools
valid = refl

plan_current_task_example :
    plan world bytes request_of_task none new_store ≡ (err (key_error "by_id"), new_store)
unfolding active_ids llmcut.Managed.Planner.Choice.open_calls kind_eq
plan_current_task_example =
    plan_current_task world bytes request_of_task [] of_task [] none new_store valid refl refl refl
