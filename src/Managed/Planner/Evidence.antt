-- ===== src/Managed/Planner/Evidence.antt =====
-- The loop of `ContextPlanner.plan` that stores every context as evidence, and keeps in the request
-- what cannot be read back exactly.
pub mod Retrievable
use llmcut.Prelude.{
  String, Bool, true, false, not, Option, none, some, List, [], ◌∷◌, ◌++◌, elem, add, insert, ◌≟◌,
  if◌then◌else◌,
}
use llmcut.Json.{str, field, end}
use llmcut.Exec.{Exec, ◌>>=◌, pure}
use llmcut.World.{World}
use llmcut.Model.{EvidenceReference, kind_value, ContextBlock}
use llmcut.Store.Evidence
use llmcut.Store.Evidence.{EvidenceStore}
use llmcut.Managed.Protocol.{Context, source_of, to_block}
use llmcut.Managed.Planner.Choice.{Reason, Selection}

-- the blocks, the digests by context, and the selection that the loop leaves
pub record Stored : Type 0 where
  pub blocks : List ContextBlock
  pub evidence : List (String × String)
  pub selection : Selection

abbrev pub retain : String → Selection → Selection
retain i s = record {
  selected = add i s.selected;
  reasons =
      insert i
        (record {
          text = "exact retrieval unavailable after persistence redaction; retained";
          confidence = 100;
        })
        s.reasons;
}

-- the selection after a context whose evidence reads `text`
abbrev pub checked_selection : Context → String → Selection → Selection
checked_selection c text s = if text ≟ c.content then s else retain c.id s

abbrev pub stored_block : World → Context → EvidenceReference → ContextBlock
stored_block w c r = record (to_block w c) { reference = some r }

abbrev pub append_if : Bool → ContextBlock → List ContextBlock → List ContextBlock
append_if keep b bs = if keep then bs ++ b ∷ [] else bs

unfoldable pub store_from : World → List Context → Stored → Exec EvidenceStore Stored
store_from w [] acc = pure acc
store_from w (c ∷ cs) acc = do
  r ←
      Evidence.put w c.content (source_of c) c.revision
        (field "context_id" (str c.id) (field "kind" (str (kind_value c.kind)) end))
  text ← Evidence.get w r.digest
  let selection = checked_selection c text acc.selection
  store_from w cs (record {
    blocks = append_if (elem c.id selection.selected) (stored_block w c r) acc.blocks;
    evidence = insert c.id r.digest acc.evidence;
    selection = selection;
  })

unfoldable pub store_contexts : World → List Context → Selection → Exec EvidenceStore Stored
store_contexts w cs s = store_from w cs (record { blocks = []; evidence = []; selection = s })
