-- ===== src/Model/Kinds.antt =====
-- The string enumerations of src/llmcut/model.py with their values, and the lookup of a value.
use llmcut.Prelude.{String, Bool, Option, none, some, ◌≡◌, refl, ◌≟◌, if◌then◌else◌}

pub data BlockKind : Type 0 where
  system developer user assistant tool_definition tool_call tool_result attachment : BlockKind
  repository command_output checkpoint source_code repository_map configuration : BlockKind
  test document current_task : BlockKind

pub data Retention : Type 0 where
  required stable recoverable superseded redundant ephemeral : Retention

pub data CountQuality : Type 0 where
  exact provider_reported tokenizer_derived estimated : CountQuality

unfoldable pub kind_value : BlockKind → String
kind_value system = "system"
kind_value developer = "developer"
kind_value user = "user"
kind_value assistant = "assistant"
kind_value tool_definition = "tool_definition"
kind_value tool_call = "tool_call"
kind_value tool_result = "tool_result"
kind_value attachment = "attachment"
kind_value repository = "repository"
kind_value command_output = "command_output"
kind_value checkpoint = "checkpoint"
kind_value source_code = "source"
kind_value repository_map = "repository_map"
kind_value configuration = "configuration"
kind_value test = "test"
kind_value document = "document"
kind_value current_task = "current_task"

-- `BlockKind(value)`; `none` is its `ValueError`
unfoldable pub kind_of : String → Option BlockKind
kind_of s =
    if s ≟ "system"
    then some system
    else if s ≟ "developer"
    then some developer
    else if s ≟ "user"
    then some user
    else if s ≟ "assistant"
    then some assistant
    else if s ≟ "tool_definition"
    then some tool_definition
    else if s ≟ "tool_call"
    then some tool_call
    else if s ≟ "tool_result"
    then some tool_result
    else if s ≟ "attachment"
    then some attachment
    else if s ≟ "repository"
    then some repository
    else if s ≟ "command_output"
    then some command_output
    else if s ≟ "checkpoint"
    then some checkpoint
    else if s ≟ "source"
    then some source_code
    else if s ≟ "repository_map"
    then some repository_map
    else if s ≟ "configuration"
    then some configuration
    else if s ≟ "test"
    then some test
    else if s ≟ "document"
    then some document
    else if s ≟ "current_task"
    then some current_task
    else none

unfoldable pub retention_value : Retention → String
retention_value required = "required"
retention_value stable = "stable"
retention_value recoverable = "recoverable"
retention_value superseded = "superseded"
retention_value redundant = "redundant"
retention_value ephemeral = "ephemeral"

unfoldable pub retention_of : String → Option Retention
retention_of s =
    if s ≟ "required"
    then some required
    else if s ≟ "stable"
    then some stable
    else if s ≟ "recoverable"
    then some recoverable
    else if s ≟ "superseded"
    then some superseded
    else if s ≟ "redundant"
    then some redundant
    else if s ≟ "ephemeral"
    then some ephemeral
    else none

unfoldable pub quality_value : CountQuality → String
quality_value exact = "exact"
quality_value provider_reported = "provider-reported"
quality_value tokenizer_derived = "tokenizer-derived"
quality_value estimated = "estimated"

unfoldable pub quality_of : String → Option CountQuality
quality_of s =
    if s ≟ "exact"
    then some exact
    else if s ≟ "provider-reported"
    then some provider_reported
    else if s ≟ "tokenizer-derived"
    then some tokenizer_derived
    else if s ≟ "estimated"
    then some estimated
    else none

-- `is`, on members of an enumeration
unfoldable pub kind_eq : BlockKind → BlockKind → Bool
unfolding kind_value
kind_eq a b = kind_value a ≟ kind_value b

unfoldable pub retention_eq : Retention → Retention → Bool
unfolding retention_value
retention_eq a b = retention_value a ≟ retention_value b

pub kind_of-kind_value : (k : BlockKind) → kind_of (kind_value k) ≡ some k
unfolding kind_of kind_value
kind_of-kind_value system = refl
kind_of-kind_value _ = refl

pub retention_of-retention_value : (r : Retention) → retention_of (retention_value r) ≡ some r
unfolding retention_of retention_value
retention_of-retention_value required = refl
retention_of-retention_value _ = refl

pub quality_of-quality_value : (q : CountQuality) → quality_of (quality_value q) ≡ some q
unfolding quality_of quality_value
quality_of-quality_value exact = refl
quality_of-quality_value _ = refl
