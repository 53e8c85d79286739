-- ===== src/Managed/Protocol/Cycles.antt =====
-- `_reject_cycles` of src/llmcut/managed/protocol.py: a depth-first search. `visiting` is the path
-- to the node, `visited` the nodes that are finished, the last one first. The fuel is one more than
-- the number of nodes, which `visit_enough` shows to be enough.
pub mod Order
pub mod Fuel
use llmcut.Prelude.{
  ℕ, zero, suc, ◌+◌, ◌≤◌, ◌<◌, String, Bool, true, false, not, ◌||◌, ◌&&◌, Option, none, some, List,
  [], ◌∷◌, map, keep_if, All, All-map, elem, length, ◌≟◌, if◌then◌else◌, ◌≡◌, ◌≢◌, ◌⊎◌, refl, sym,
  ap, subst, arith, eq_iff, eq_refl, Bool-cases, inl, inr,
}
use llmcut.Result.{Result, ok, err, protocol_error}

-- `{item.id: item.dependencies}`: the last entry of an identifier counts
abbrev pub Graph : Type 0
Graph = List (String × List String)

unfoldable pub edges : String → Graph → Option (List String)
edges i [] = none
edges i ((j, ds) ∷ g) = elim (edges i g) [
  | some es ↦ some es
  | none ↦ if i ≟ j then some ds else none
]

-- `graph.get(identifier, ())`
abbrev pub targets_of : Option (List String) → List String
targets_of none = []
targets_of (some ds) = ds

abbrev pub targets : String → Graph → List String
targets i g = targets_of (edges i g)

pub data Visit : Type 0 where
  cyclic exhausted : Visit
  finished : List String → Visit

abbrev pub visit_all : (List String → String → Visit) → List String → List String → Visit
visit_all go visited [] = finished visited
visit_all go visited (d ∷ ds) = elim (go visited d) [
  | finished v ↦ visit_all go v ds
  | cyclic ↦ cyclic
  | exhausted ↦ exhausted
]

-- `visiting.remove(identifier); visited.add(identifier)`
abbrev pub finish : String → Visit → Visit
finish i (finished v) = finished (i ∷ v)
finish i cyclic = cyclic
finish i exhausted = exhausted

unfoldable pub visit : ℕ → Graph → List String → List String → String → Visit
unfolding edges
visit zero g visiting visited i = exhausted
visit (suc fuel) g visiting visited i =
    let below = visit_all (λ v d. visit fuel g (i ∷ visiting) v d) visited (targets i g) in
    if elem i visiting then cyclic else if elem i visited then finished visited else finish i below

abbrev pub nodes : Graph → List String
nodes = map (λ (e : String × List String). e.0)

unfoldable pub search : Graph → Visit
unfolding visit
search g = visit_all (visit (suc (length g)) g []) [] (nodes g)

unfoldable pub reject_cycles : Graph → Result (Unit {0})
unfolding search
reject_cycles g = elim (search g) [
  | finished _ ↦ ok tt
  | _ ↦ err (protocol_error "cyclic context dependencies are not allowed")
]
