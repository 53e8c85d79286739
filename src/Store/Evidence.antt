-- ===== src/Store/Evidence.antt =====
-- `EvidenceStore` of src/llmcut/store/evidence.py. Contents are texts: `encode` and `decode` are
-- inverse to one another and are left out; a size is the number of UTF-8 bytes.
mod Lookups
pub mod Integrity
pub mod Extends
pub mod Collection
use Prim.Native.String.{len}
use mathlib.Core.List.{foldl}
use llmcut.Prelude.{
  ℕ, String, Bool, not, Option, none, some, List, [], ◌∷◌, map, length, ◌-◌, if◌then◌else◌, ◌≟◌,
}
use llmcut.Result.{Result, ok, err, integrity_error, key_error, database_error}
use llmcut.Json.{Json, Fields, str, null}
use llmcut.Exec.{Exec, ◌>>=◌, ◌>>◌, pure, raise, raise_if, gets, modify}
use llmcut.World.{World}
use llmcut.Model.{EvidenceReference, digest_bytes}
use llmcut.Store.Database.{
  Row, Reference, select_content, insert_row, touch, is_referenced, insert_reference, surviving,
  expired,
}

pub record EvidenceStore : Type 0 where
  pub persist_content : Bool
  pub evidence : List Row
  pub references : List Reference
  pub clock : ℕ

-- `redact_for_persistence`: each pattern's substitution in turn
unfoldable pub redact_for_persistence : World → String → String
redact_for_persistence w value =
    foldl (λ (v : String) (sub : String → String). sub v) value w.substitutions

-- `int(time.time())`
abbrev pub time : World → Exec EvidenceStore ℕ
time w s = (ok s.clock, record s { clock = w.tick s.clock })

-- what `put` writes for a content
unfoldable pub persisted : World → Bool → String → String
unfolding redact_for_persistence
persisted w persist content =
    if persist then redact_for_persistence w content else "[CONTENT NOT PERSISTED]"

abbrev is_collision : Option String → String → Bool
is_collision existing raw = elim existing [ none ↦ Bool.false | some old ↦ not (old ≟ raw) ]

-- the check against the row that is there, and the INSERT
pub write : Row → Option String → Exec EvidenceStore EvidenceReference
unfolding insert_row
write row existing s =
    if is_collision existing row.content
    then (
      err (integrity_error "cryptographic digest collision detected; evidence not overwritten"),
      s,
    )
    else (
      ok (record {
        digest = row.digest;
        source = row.source;
        revision = row.revision;
        start_line = none;
        end_line = none;
      }),
      record s { evidence = insert_row row s.evidence },
    )

-- the row that `put` writes at a time
abbrev pub new_row : World → Bool → String → String → Option String → Fields → ℕ → Row
new_row w persist content source revision metadata now =
    let raw = persisted w persist content in
    record {
      digest = digest_bytes w raw;
      content = raw;
      source = source;
      revision = revision;
      created_at = now;
      last_accessed = now;
      size = len raw;
      metadata = metadata;
    }

unfoldable pub put :
    World → String → String → Option String → Fields → Exec EvidenceStore EvidenceReference
unfolding digest_bytes persisted write select_content
put w content source revision metadata = do
  persist ← gets (λ s. s.persist_content)
  now ← time w
  let row = new_row w persist content source revision metadata now
  existing ← gets (λ s. select_content row.digest s.evidence)
  write row existing

abbrev verified : World → String → String → Exec EvidenceStore String
verified w digest raw s = (
  if not (digest_bytes w raw ≟ digest)
      then err (integrity_error "evidence digest verification failed")
      else ok raw,
  s,
)

-- the access time is written before the digest is verified
unfoldable pub fetch : World → String → Option String → Exec EvidenceStore String
unfolding touch digest_bytes
fetch w digest none = raise (key_error "digest")
fetch w digest (some raw) = do
  now ← time w
  modify (λ s. record s { evidence = touch now digest s.evidence })
  verified w digest raw

unfoldable pub get : World → String → Exec EvidenceStore String
unfolding fetch select_content
get w digest = do row ← gets (λ s. select_content digest s.evidence); fetch w digest row

-- `reference`: foreign keys are on, so that an unknown digest is refused by the database
unfoldable pub reference : String → String → Exec EvidenceStore Unit
unfolding insert_reference select_content
reference owner digest s = elim (select_content digest s.evidence) [
  | none ↦ (err (database_error "FOREIGN KEY constraint failed"), s)
  | some _ ↦ (
    ok tt,
    record s {
      references = insert_reference (record { owner = owner; digest = digest }) s.references;
    },
  )
]

-- `collect` returns the cursor's count of the rows that the DELETE affects
unfoldable pub collect : ℕ → Exec EvidenceStore ℕ
unfolding surviving expired
collect older_than s = (
  ok (length (expired older_than s.references s.evidence)),
  record s { evidence = surviving older_than s.references s.evidence },
)
