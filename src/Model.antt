-- ===== src/Model.antt =====
-- src/llmcut/model.py: the provider-neutral request, and the text that may reach a model.
-- The enumerations are in `Kinds`, the JSON codec in `Codec`, the proofs below them.
-- Token counts are naturals: every counter of the repository returns at least zero.
mod Kinds
pub mod Codec
pub mod Bound
pub use Kinds.{
  BlockKind, system, developer, user, assistant, tool_definition, tool_call, tool_result,
  attachment, repository, command_output, checkpoint, source_code, repository_map, configuration,
  test, document, current_task, Retention, required, stable, recoverable, superseded, redundant,
  ephemeral, CountQuality, exact, provider_reported, tokenizer_derived, estimated,
}
unfoldable pub use Kinds.{
  kind_value, kind_of, retention_value, retention_of, quality_value, quality_of, kind_eq,
  retention_eq,
}
pub use Kinds.{kind_of-kind_value, retention_of-retention_value, quality_of-quality_value}
use Prim.Native.String.{◌++◌ as join}
use llmcut.Prelude.{
  ℕ, String, Option, none, some, List, [], Bool, not, ◌&&◌, ◌≟◌, is_empty, if◌then◌else◌, ◌≡◌,
}
use llmcut.Result.{Result, ok, err, value_error}
use llmcut.Json.{Fields, end, ℤ}
use llmcut.World.{World}

unfoldable pub digest_bytes : World → String → String
digest_bytes w content = join "sha256:" (w.sha256 content)

pub record TokenCount : Type 0 where
  pub value : ℕ
  pub quality : CountQuality
  pub method : String

pub record EvidenceReference : Type 0 where
  pub digest : String
  pub source : String
  pub revision : Option String
  pub start_line : Option ℤ
  pub end_line : Option ℤ

pub record ContextBlock : Type 0 where
  pub id : String
  pub kind : BlockKind
  pub content : String
  pub source : String
  pub priority : ℤ
  pub dependencies : List String
  pub metadata : Fields
  pub reference : Option EvidenceReference
  pub tokens : Option TokenCount
  pub digest : String
  pub retention : Retention

-- `__post_init__`: a digest that is given must be that of the content.
unfoldable pub post_init : World → ContextBlock → Result ContextBlock
unfolding digest_bytes
post_init w b =
    let actual = digest_bytes w b.content in
    if not (is_empty b.digest) && not (b.digest ≟ actual)
    then err (value_error "digest mismatch for block")
    else ok (record b { digest = actual })

-- The constructor's call with the defaults of the fields that it leaves out.
unfoldable pub new_block :
    World → String → BlockKind → String → String → Fields → Retention → ContextBlock
unfolding digest_bytes
new_block w id kind content source metadata retention = record {
  id = id;
  kind = kind;
  content = content;
  source = source;
  priority = ℤ.pos 50;
  dependencies = [];
  metadata = metadata;
  reference = none;
  tokens = none;
  digest = digest_bytes w content;
  retention = retention;
}

pub record ModelConfiguration : Type 0 where
  pub provider : String
  pub model : String
  pub parameters : Fields
  pub reasoning : Fields
  pub token_budget : Option ℤ

pub record CanonicalRequest : Type 0 where
  pub blocks : List ContextBlock
  pub model : ModelConfiguration
  pub tools : List ContextBlock
  pub cache : Fields
  pub passthrough : Fields
  pub request_id : Option String

-- What `__post_init__` leaves: the digest of a block is that of its content.
abbrev pub IsDigested : World → ContextBlock → Type 0
IsDigested w b = b.digest ≡ digest_bytes w b.content
