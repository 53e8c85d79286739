-- ===== src/Managed/Tools.antt =====
-- src/llmcut/managed/tools.py: the registry of tools. `categories`, sorted for display, is left out.
use llmcut.Prelude.{
  ℕ, min, max, String, Bool, true, false, ◌||◌, List, [], ◌∷◌, map, keep_if, take, elem, ◌≟◌,
  eq_iff, if◌then◌else◌, ◌≡◌, refl, arith, Bool-cases, inl, inr,
}
use llmcut.Result.{Result, ok, err, value_error, retrieval_error}
use llmcut.Json.{ℤ, pos, negsuc}
use llmcut.World.{World}
use llmcut.Core.Recover.{contains}
use llmcut.Managed.Protocol.{ToolDefinition}

abbrev repeats : List String → Bool
repeats [] = false
repeats (n ∷ ns) = elem n ns || repeats ns

-- `ToolRegistry.__post_init__`
unfoldable pub registry_of : List ToolDefinition → Result (List ToolDefinition)
registry_of tools =
    if repeats (map (λ (t : ToolDefinition). t.name) tools)
    then err (value_error "canonical tool registry names must be unique")
    else ok tools

abbrev is_match : World → String → ToolDefinition → Bool
is_match w query t =
    contains (w.casefold t.name) query
    || contains (w.casefold t.category) query
    || contains (w.casefold t.description) query

abbrev clamped : ℤ → ℕ
clamped (pos n) = min (max n 1) 100
clamped (negsuc n) = 1

-- `discover`
unfoldable pub discover_tools : World → List ToolDefinition → String → ℤ → List ToolDefinition
discover_tools w tools query limit =
    take (clamped limit) (keep_if (is_match w (w.casefold query)) tools)

-- `load`
unfoldable pub load : String → List ToolDefinition → Result ToolDefinition
load name [] = err (retrieval_error "tool is unavailable")
load name (t ∷ ts) = if t.name ≟ name then ok t else load name ts

abbrev pub names : List ToolDefinition → List String
names = map (λ (t : ToolDefinition). t.name)

-- A tool is loaded exactly by a name that the registry has, and is then one of that name.
load_exact :
    (name : String) (tools : List ToolDefinition)
    → (elem name (names tools) ≡ true
        → (t : ToolDefinition) × (load name tools ≡ ok t) × (t.name ≡ name))
      × (elem name (names tools) ≡ false
          → load name tools ≡ err (retrieval_error "tool is unavailable"))
unfolding load
load_exact name [] = (λ h. ground arith, λ h. refl)
load_exact name (t ∷ ts) = elim (Bool-cases (t.name ≟ name)) [
  | inl e ↦ rw e (
    λ h. (t, refl, (eq_iff t.name name).0 e),
    λ h. ground (arith, h, e, eq_iff t.name name, eq_iff name t.name),
  )
  | inr e ↦ rw e (
    λ h. (load_exact name ts).0 (ground (arith, h, e, eq_iff t.name name, eq_iff name t.name)),
    λ h. (load_exact name ts).1 (ground (arith, h)),
  )
]
