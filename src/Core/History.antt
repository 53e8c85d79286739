-- ===== src/Core/History.antt =====
-- src/llmcut/core/history.py and the record of src/llmcut/core/checkpoint.py: a closed history is
-- replaced by a checkpoint that is smaller.
pub mod Compacted
use Prim.Native.String.{◌++◌ as join, len}
use llmcut.Prelude.{
  ℕ, ◌<◌, String, Bool, true, false, not, ◌||◌, Option, none, some, List, [], ◌∷◌, ◌++◌, keep_if,
  sum_of, length, add, discard, is_empty, ltb, leb, ◌≟◌, if◌then◌else◌, ◌≡◌, refl, subst, ltb→lt,
  Bool-cases, inl, inr, arith,
}
use llmcut.Result.{ok, ok_inj, integrity_error}
use llmcut.Json.{Json, null, str, arr, obj, Items, nil, cons, Fields, field, end, get}
use llmcut.Exec.{Exec, ◌>>=◌, ◌>>◌, pure, raise_if, >>=-eq-ok}
use llmcut.World.{World}
use llmcut.Model.{
  BlockKind, system, developer, tool_call, tool_result, checkpoint, kind_eq, ContextBlock,
  new_block, required,
}
use llmcut.Store.Evidence
use llmcut.Store.Evidence.{EvidenceStore}

pub record Checkpoint : Type 0 where
  pub objective : String
  pub constraints : List String
  pub decisions : List String
  pub rejected_alternatives : List String
  pub rationale : List String
  pub evidence : List String
  pub changed_files : List String
  pub unresolved_questions : List String
  pub validation_commands : List String
  pub validation_results : List String
  pub failures : List String
  pub repository_revision : Option String
  pub remaining_work : List String
  pub id : String

abbrev text_items : List String → Items
text_items [] = nil
text_items (x ∷ xs) = cons (str x) (text_items xs)

abbrev optional_text : Option String → Json
optional_text none = null
optional_text (some s) = str s

abbrev texts : List String → Json
texts xs = arr (text_items xs)

-- `asdict(checkpoint)` without `evidence` and `id`, which stay local
unfoldable pub payload_of : Checkpoint → Fields
payload_of c = field "objective" (str c.objective) (
    field "constraints" (texts c.constraints) (
      field "decisions" (texts c.decisions) (
        field "rejected_alternatives" (texts c.rejected_alternatives) (
          field "rationale" (texts c.rationale) (
            field "changed_files" (texts c.changed_files) (
              field "unresolved_questions" (texts c.unresolved_questions) (
                field "validation_commands" (texts c.validation_commands) (
                  field "validation_results" (texts c.validation_results) (
                    field "failures" (texts c.failures) (
                      field "repository_revision" (optional_text c.repository_revision)
                        (field "remaining_work" (texts c.remaining_work) end)))))))))))

abbrev is_missing : Option String → Bool
is_missing none = true
is_missing (some s) = is_empty s

-- `repository_revision is not None and checkpoint.repository_revision != repository_revision`
abbrev is_stale : Option String → Option String → Bool
is_stale none own = false
is_stale (some r) none = true
is_stale (some r) (some own) = not (own ≟ r)

-- each digest of the checkpoint is read, and so verified
unfoldable pub verify_all : World → List String → Exec EvidenceStore Unit
verify_all w [] = pure tt
verify_all w (d ∷ ds) = Evidence.get w d >>= λ _. verify_all w ds

abbrev pub call_change : BlockKind → Option Json → List String → List String
call_change tool_call (some (str i)) calls = add i calls
call_change tool_result (some (str i)) calls = discard i calls
call_change _ _ calls = calls

-- the tool calls that have no result yet
unfoldable pub open_after : List String → List ContextBlock → List String
open_after calls [] = calls
open_after calls (b ∷ bs) = open_after (call_change b.kind (get "tool_call_id" b.metadata) calls) bs

abbrev pub is_durable : ContextBlock → Bool
is_durable b = kind_eq b.kind system || kind_eq b.kind developer

unfoldable pub checkpoint_block : World → Checkpoint → ContextBlock
checkpoint_block w c =
    new_block w (join "checkpoint:" c.id) checkpoint (w.dumps (obj (payload_of c)))
      "managed:checkpoint" end required

abbrev pub candidate : World → Checkpoint → List ContextBlock → List ContextBlock
candidate w c blocks = keep_if is_durable blocks ++ checkpoint_block w c ∷ []

-- the bytes of the contents
abbrev pub size : List ContextBlock → ℕ
size = sum_of (λ (b : ContextBlock). len b.content)

abbrev pub smaller : List ContextBlock → List ContextBlock → List ContextBlock × Bool
smaller new old = if ltb (size new) (size old) then (new, true) else (old, false)

-- `compact_history`
unfoldable pub compact_history :
    World
    → List ContextBlock
    → Checkpoint
    → Option String
    → Exec EvidenceStore (List ContextBlock × Bool)
compact_history w blocks c revision = do
  raise_if (is_empty c.objective || is_missing c.repository_revision)
      (integrity_error "checkpoint objective and repository revision are required")
  raise_if (is_stale revision c.repository_revision)
      (integrity_error "checkpoint repository revision is stale")
  verify_all w c.evidence
  raise_if (not (leb (length (open_after [] blocks)) 0))
      (integrity_error "unresolved tool call crosses checkpoint boundary")
  pure (smaller (candidate w c blocks) blocks)

refused :
    (b : Bool) (s : EvidenceStore) {u : Unit {0}}
    → (raise_if b (integrity_error "unresolved tool call crosses checkpoint boundary") s).0 ≡ ok u
    → b ≡ false
refused b s h = ground arith

no_calls : (calls : List String) → (not (leb (length calls) 0)) ≡ false → calls ≡ []
no_calls [] h = refl
no_calls (i ∷ calls) h = ground arith

-- What a call that returned has found: no open call, and the smaller of the two histories.
pub compact_history-eq-ok :
    (w : World) (blocks : List ContextBlock) (c : Checkpoint) (revision : Option String)
    (s : EvidenceStore) (out : List ContextBlock × Bool)
    → (compact_history w blocks c revision s).0 ≡ ok out
    → (smaller (candidate w c blocks) blocks ≡ out) × (open_after [] blocks ≡ [])
unfolding compact_history
compact_history-eq-ok w blocks c revision s out h =
    let first =
      raise_if (is_empty c.objective || is_missing c.repository_revision)
        (integrity_error "checkpoint objective and repository revision are required") in
    let second =
      raise_if (is_stale revision c.repository_revision)
        (integrity_error "checkpoint repository revision is stale") in
    let last =
      raise_if (not (leb (length (open_after [] blocks)) 0))
        (integrity_error "unresolved tool call crosses checkpoint boundary") in
    let (_, e1, h1, _) = >>=-eq-ok first _ s h in
    let (_, e2, h2, _) = >>=-eq-ok second _ (first s).1 h1 in
    let (_, e3, h3, _) = >>=-eq-ok (verify_all w c.evidence) _ (second (first s).1).1 h2 in
    let t = (verify_all w c.evidence (second (first s).1).1).1 in
    let (_, e4, h4, _) = >>=-eq-ok last _ t h3 in
    (
      ok_inj h4,
      no_calls (open_after [] blocks) (refused (not (leb (length (open_after [] blocks)) 0)) t e4),
    )
