-- ===== src/Tests/Commanded.antt =====
-- A command whose output is shorter than its summary, and a registry of one tool.
use Prim.Native.String.{len}
use llmcut.Prelude.{true, false, none, [], ◌∷◌, ◌≡◌, ◌⊎◌, ◌<◌, refl}
use llmcut.Result.{ok}
use llmcut.Json.{obj, end, pos}
use llmcut.Model.{digest_bytes}
use llmcut.Store.Database.{select_content, insert_row}
use llmcut.Store.Evidence
use llmcut.Store.Evidence.{EvidenceStore, put, persisted, redact_for_persistence}
use llmcut.Core.Command.{
  VirtualCommandOutput, output_of, virtualize_output, virtualize_output-smaller,
}
use llmcut.Managed.Protocol.{ToolDefinition}
use llmcut.Tests.Fixtures.{world, new_store}

abbrev out : VirtualCommandOutput
out = output_of world "done" ("pytest" ∷ []) "/" (pos 0) 10 30 (record {
  digest = "sha256:done";
  source = "command:pytest";
  revision = none;
  start_line = none;
  end_line = none;
})

virtualize_output-smaller_example :
    ((out.effective_context ≡ "done") ⊎ (len out.effective_context < len "done"))
    × ((Evidence.get world out.reference.digest
          (virtualize_output world "done" ("pytest" ∷ []) "/" (pos 0) 10 30 new_store).1).0
        ≡ ok (persisted world true "done"))
unfolding virtualize_output put persisted redact_for_persistence digest_bytes select_content
    insert_row output_of
virtualize_output-smaller_example =
    virtualize_output-smaller world "done" ("pytest" ∷ []) "/" (pos 0) 10 30 new_store out refl

abbrev tool : ToolDefinition
tool = record {
  name = "grep";
  description = "searches";
  input_schema = obj end;
  category = "general";
  required_tool = false;
  extensions = end;
}
