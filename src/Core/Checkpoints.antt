-- ===== src/Core/Checkpoints.antt =====
-- `CheckpointStore.save` of src/llmcut/core/checkpoint.py: a checkpoint keeps the evidence it names.
-- The state is the store of evidence with the table of checkpoints; a time is a reading of its clock.
use Prim.Native.String.{◌++◌ as join}
use llmcut.Prelude.{ℕ, String, Option, List, [], ◌∷◌, ◌++◌, any, ◌≟◌, if◌then◌else◌}
use llmcut.Result.{ok, err, database_error}
use llmcut.Json.{obj, Fields, set, str, arr, Items, nil, cons}
use llmcut.Exec.{Exec, ◌>>=◌, pure}
use llmcut.World.{World}
use llmcut.Store.Evidence
use llmcut.Store.Evidence.{EvidenceStore}
use llmcut.Core.History.{Checkpoint, payload_of}

pub record CheckpointRow : Type 0 where
  pub id : String
  pub payload : String
  pub revision : Option String
  pub created_at : ℕ

pub record CheckpointStore : Type 0 where
  pub evidence : EvidenceStore
  pub checkpoints : List CheckpointRow

abbrev in_evidence : {A : Type 0} → Exec EvidenceStore A → Exec CheckpointStore A
in_evidence m s = let (a, e) = m s.evidence in (a, record s { evidence = e })

abbrev text_items : List String → Items
text_items [] = nil
text_items (x ∷ xs) = cons (str x) (text_items xs)

-- `asdict(checkpoint)`
abbrev all_fields : Checkpoint → Fields
all_fields c = set "id" (str c.id) (set "evidence" (arr (text_items c.evidence)) (payload_of c))

-- the evidence is verified, and referenced under the checkpoint's name
unfoldable pub hold_all : World → String → List String → Exec EvidenceStore Unit
hold_all w owner [] = pure tt
hold_all w owner (d ∷ ds) =
    Evidence.get w d >>= λ _. (Evidence.reference owner d >>= λ _. hold_all w owner ds)

-- the INSERT: an identifier is the primary key
unfoldable pub insert_checkpoint : World → Checkpoint → Exec CheckpointStore String
insert_checkpoint w c s =
    if any (λ (r : CheckpointRow). r.id ≟ c.id) s.checkpoints
    then (err (database_error "UNIQUE constraint failed: checkpoints.id"), s)
    else (
      ok c.id,
      record {
        evidence = record s.evidence { clock = w.tick s.evidence.clock };
        checkpoints =
            s.checkpoints
            ++ record {
              id = c.id;
              payload = w.dumps_spaced (obj (all_fields c));
              revision = c.repository_revision;
              created_at = s.evidence.clock;
            }
              ∷ [];
      },
    )

-- `save`
unfoldable pub save : World → Checkpoint → Exec CheckpointStore String
save w c =
    in_evidence (hold_all w (join "checkpoint:" c.id) c.evidence) >>= λ _. insert_checkpoint w c
