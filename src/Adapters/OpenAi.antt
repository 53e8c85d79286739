-- ===== src/Adapters/OpenAi.antt =====
-- `OpenAIAdapter` of src/llmcut/adapters/openai.py, in its two styles.
use llmcut.Prelude.{
  ℕ, suc, String, Bool, true, false, Option, none, some, List, [], ◌∷◌, ◌++◌, map, if◌then◌else◌,
  ◌≟◌,
}
use llmcut.Result.{Result, ok, err, ◌>>=◌, ◌>>◌, type_error, value_error}
use llmcut.Json.{
  Json, null, str, arr, obj, int, boolean, Items, Fields, field, end, pos, get, set, remove,
  without, of_list, truthy,
}
use llmcut.Json.Values.{
  get_or, get_truthy, as_object, loop_over, iterate_or_empty, merge, pick, to_dictionary,
}
use llmcut.World.{World}
use llmcut.Model.{
  BlockKind, system, developer, user, assistant, tool_result, tool_call, ContextBlock,
  CanonicalRequest,
}
use llmcut.Core.Recover.{join_lines}
use llmcut.Adapters.{ProviderAdapter, ProviderUsage, validate_model, semantically_equal}
use llmcut.Adapters.Messages.{
  numbered, native_block, tool_blocks, loaded_tools, instructions_of, conversation_of, contents,
  model_of,
}

pub data Style : Type 0 where
  chat responses : Style

-- `_text`
abbrev pub openai_text : World → Json → String
openai_text w (str s) = s
openai_text w v = w.dumps_spaced v

abbrev kind_of_role : String → BlockKind
kind_of_role role =
    if role ≟ "system"
    then system
    else if role ≟ "developer"
    then developer
    else if role ≟ "assistant"
    then assistant
    else if role ≟ "tool"
    then tool_result
    else user

-- `_role_kind`; a role that cannot be hashed is a `TypeError`
unfoldable pub role_kind : Json → Result BlockKind
role_kind (str role) = ok (kind_of_role role)
role_kind (arr vs) = err (type_error "unhashable type")
role_kind (obj d) = err (type_error "unhashable type")
role_kind _ = ok user

-- `_kind_role`
unfoldable pub kind_role : BlockKind → String
kind_role system = "system"
kind_role developer = "developer"
kind_role assistant = "assistant"
kind_role tool_result = "tool"
kind_role tool_call = "assistant"
kind_role _ = "user"

abbrev internal : List String
internal =
    "native_content" ∷ "dedupe_safe" ∷ "revision" ∷ "confidence" ∷ "task_irrelevant"
    ∷ "proven_redundant" ∷ "represented_by_verified_structure" ∷ "superseded" ∷ []

-- `value is not None`
abbrev without_nulls : Fields → Fields
without_nulls end = end
without_nulls (field k null d) = without_nulls d
without_nulls (field k v d) = field k v (without_nulls d)

-- `_public_metadata`
unfoldable pub public_metadata : Fields → Fields
public_metadata d = without_nulls (without internal d)

-- a message's own fields, with what the adapter remembers of it
abbrev remembered : Json → Fields → Fields
remembered content message =
    set "dedupe_safe" (boolean false)
      (set "native_content" content (without ("role" ∷ "content" ∷ []) message))

abbrev message_block : World → String → String → Json → ℕ → Fields → Result ContextBlock
message_block w prefix source default n message =
    role_kind (get_or "role" (str "user") message) >>= λ kind.
    let content = get_or "content" default message in
    ok (
      native_block w (numbered w prefix n) kind (openai_text w content) source
        (remembered content message))

-- the loop over `messages`, in which a missing content is empty
unfoldable pub chat_blocks : World → ℕ → List Json → Result (List ContextBlock)
chat_blocks w n [] = ok []
chat_blocks w n (v ∷ vs) = as_object v >>= λ message.
    message_block w "message" "openai:messages" (str "") n message >>= λ b.
    chat_blocks w (suc n) vs >>= λ bs. ok (b ∷ bs)

-- the loop over `input`, in which an item with no content is its own
unfoldable pub input_blocks : World → ℕ → List Json → Result (List ContextBlock)
input_blocks w n [] = ok []
input_blocks w n (v ∷ vs) = as_object v >>= λ message.
    message_block w "input" "openai:input" v n message >>= λ b.
    input_blocks w (suc n) vs >>= λ bs. ok (b ∷ bs)

abbrev instruction_blocks : World → Option Json → List ContextBlock
instruction_blocks w none = []
instruction_blocks w (some v) =
    if truthy v
    then native_block w "instructions" developer (openai_text w v) "openai:instructions"
        (field "native_content" v (field "dedupe_safe" (boolean false) end))
      ∷ []
    else []

-- a text is one message of the user
abbrev input_items : Json → Result (List Json)
input_items (str s) = ok (obj (field "role" (str "user") (field "content" (str s) end)) ∷ [])
input_items v = iterate_or_empty (some v)

unfoldable pub blocks_from : World → Style → Fields → Result (List ContextBlock)
blocks_from w chat payload = loop_over "messages" payload >>= λ vs. chat_blocks w 0 vs
blocks_from w responses payload = input_items (get_or "input" (arr Items.nil) payload) >>= λ vs.
    input_blocks w 0 vs >>= λ bs. ok (instruction_blocks w (get "instructions" payload) ++ bs)

abbrev parameter_names : List String
parameter_names = "max_tokens" ∷ "max_completion_tokens" ∷ "max_output_tokens" ∷ "stream" ∷ []

abbrev known : List String
known = "model" ∷ "messages" ∷ "tools" ∷ "input" ∷ "instructions" ∷ "reasoning" ∷ parameter_names

unfoldable pub openai_from_native : World → Style → Fields → Result CanonicalRequest
openai_from_native w style payload = blocks_from w style payload >>= λ blocks.
    loop_over "tools" payload >>= λ tools. model_of payload >>= λ model.
    to_dictionary (get_or "reasoning" (obj end) payload) >>= λ reasoning. ok (record {
      blocks = blocks;
      model = record {
        provider = "openai";
        model = model;
        parameters = pick parameter_names payload;
        reasoning = reasoning;
        token_budget = none;
      };
      tools = tool_blocks w "openai:tools" 0 tools;
      cache = end;
      passthrough = without known payload;
      request_id = none;
    })

-- a block as a message
unfoldable pub message_of : ContextBlock → Json
message_of b = obj (
    merge
      (field "role" (str (kind_role b.kind))
        (field "content" (get_or "native_content" (str b.content) b.metadata) end))
      (public_metadata b.metadata))

abbrev set_instructions : List ContextBlock → Fields → Fields
set_instructions [] payload = payload
set_instructions (b ∷ []) payload =
    set "instructions" (get_or "native_content" null b.metadata) payload
set_instructions (b ∷ c ∷ bs) payload =
    set "instructions" (str (join_lines (contents (b ∷ c ∷ bs)))) payload

unfoldable pub set_blocks : Style → List ContextBlock → Fields → Fields
set_blocks chat blocks payload = set "messages" (arr (of_list (map message_of blocks))) payload
set_blocks responses blocks payload =
    set "input" (arr (of_list (map message_of (conversation_of blocks))))
      (set_instructions (instructions_of blocks) payload)

-- `payload[key] = d`, where there is something in it
abbrev pub set_fields : String → Fields → Fields → Fields
set_fields k end payload = payload
set_fields k d payload = set k (obj d) payload

unfoldable pub openai_to_native : World → Style → CanonicalRequest → Result Fields
openai_to_native w style r = loaded_tools w r.tools >>= λ tools. ok (
    set_blocks style r.blocks (
      set "tools" (arr (of_list tools)) (
        set_fields "reasoning" r.model.reasoning (
          set "model" (str r.model.model)
            (merge (remove "llmcut_original" r.passthrough) r.model.parameters)))))

unfoldable pub openai_usage : Fields → Result ProviderUsage
openai_usage response = as_object (get_truthy "usage" (obj end) response) >>= λ usage.
    as_object (get_truthy "input_tokens_details" (obj end) usage) >>= λ details.
    as_object (get_truthy "output_tokens_details" (obj end) usage) >>= λ output_details.
    ok (record {
      input_tokens = get_or "prompt_tokens" (get_or "input_tokens" (int (pos 0)) usage) usage;
      output_tokens = get_or "completion_tokens" (get_or "output_tokens" (int (pos 0)) usage) usage;
      cached_tokens = get_or "cached_tokens" (int (pos 0)) details;
      reasoning_tokens = get_or "reasoning_tokens" (int (pos 0)) output_details;
    })

abbrev is_text_or_list : Option Json → Bool
is_text_or_list (some (str s)) = true
is_text_or_list (some (arr vs)) = true
is_text_or_list _ = false

abbrev key_of : Style → String
key_of chat = "messages"
key_of responses = "input"

unfoldable pub openai_validate : Style → Fields → Result (Unit {0})
openai_validate style payload =
    validate_model payload
    >> (if is_text_or_list (get (key_of style) payload)
        then ok tt
        else err (value_error "OpenAI request requires its messages"))

abbrev pub openai_adapter : World → Style → ProviderAdapter
openai_adapter w style = record {
  validate_native = openai_validate style;
  from_native = openai_from_native w style;
  to_native = openai_to_native w style;
  usage = openai_usage;
  semantically_equal = semantically_equal;
}
