-- ===== src/Adapters/Anthropic.antt =====
-- `AnthropicAdapter` of src/llmcut/adapters/anthropic.py.
pub mod RoundTrip
use llmcut.Prelude.{
  ℕ, suc, String, Bool, true, false, ◌&&◌, Option, none, some, List, [], ◌∷◌, ◌++◌, map,
  if◌then◌else◌,
}
use llmcut.Result.{Result, ok, err, ◌>>=◌, ◌>>◌, or_raise, type_error, value_error}
use llmcut.Json.{
  ℤ, Json, str, arr, obj, int, boolean, Items, nil, cons, Fields, field, end, pos, get, set, remove,
  without, of_list, is_text,
}
use llmcut.Json.Integers.{◌+ℤ◌}
use llmcut.Json.Values.{
  get_or, get_truthy, as_object, subscript, loop_over, merge, pick, to_dictionary, text_of,
}
use llmcut.World.{World}
use llmcut.Model.{BlockKind, system, user, assistant, kind_eq, ContextBlock, CanonicalRequest}
use llmcut.Core.Recover.{join_lines}
use llmcut.Adapters.{ProviderAdapter, ProviderUsage, validate_model, semantically_equal}
use llmcut.Adapters.Messages.{
  numbered, native_block, tool_blocks, loaded_tools, instructions_of, conversation_of, contents,
  model_of,
}
use llmcut.Adapters.OpenAi.{set_fields}

-- the text of a part, which `join` wants to be a text
abbrev pub part_text : World → Fields → Result String
part_text w d = elim (get "text" d) [
  | none ↦ ok (w.dumps_spaced (obj d))
  | some (str s) ↦ ok s
  | some _ ↦ err (type_error "expected str instance")
]

abbrev item_text : World → Json → Result String
item_text w (obj d) = part_text w d
item_text w v = ok (text_of w v)

abbrev item_texts : World → Items → Result (List String)
item_texts w nil = ok []
item_texts w (cons v vs) = item_text w v >>= λ t. item_texts w vs >>= λ ts. ok (t ∷ ts)

-- `_text`
unfoldable pub anthropic_text : World → Json → Result String
anthropic_text w (str s) = ok s
anthropic_text w (arr vs) = item_texts w vs >>= λ ts. ok (join_lines ts)
anthropic_text w v = ok (w.dumps_spaced v)

abbrev pub remembered : Json → Fields
remembered content = field "native_content" content (field "dedupe_safe" (boolean false) end)

abbrev pub system_blocks : World → Option Json → Result (List ContextBlock)
system_blocks w none = ok []
system_blocks w (some v) = anthropic_text w v >>= λ text.
    ok (native_block w "system" system text "anthropic:system" (remembered v) ∷ [])

abbrev role_of : Json → BlockKind
role_of v = if is_text "assistant" (some v) then assistant else user

unfoldable pub anthropic_blocks : World → ℕ → List Json → Result (List ContextBlock)
anthropic_blocks w n [] = ok []
anthropic_blocks w n (v ∷ vs) = subscript "role" v >>= λ role. as_object v >>= λ message.
    let content = get_or "content" (str "") message in
    anthropic_text w content >>= λ text. anthropic_blocks w (suc n) vs >>= λ bs. ok (
      native_block w (numbered w "message" n) (role_of role) text "anthropic:messages"
        (remembered content)
      ∷ bs)

unfoldable pub anthropic_from_native : World → Fields → Result CanonicalRequest
anthropic_from_native w payload = system_blocks w (get "system" payload) >>= λ systems.
    loop_over "messages" payload >>= λ messages. anthropic_blocks w 0 messages >>= λ blocks.
    loop_over "tools" payload >>= λ tools. model_of payload >>= λ model.
    to_dictionary (get_or "thinking" (obj end) payload) >>= λ thinking. ok (record {
      blocks = systems ++ blocks;
      model = record {
        provider = "anthropic";
        model = model;
        parameters = pick ("max_tokens" ∷ "stream" ∷ []) payload;
        reasoning = thinking;
        token_budget = none;
      };
      tools = tool_blocks w "anthropic:tools" 0 tools;
      cache = end;
      passthrough =
          without
            ("model" ∷ "system" ∷ "messages" ∷ "tools" ∷ "max_tokens" ∷ "stream" ∷ "thinking" ∷ [])
            payload;
      request_id = none;
    })

unfoldable pub anthropic_message : ContextBlock → Json
anthropic_message b = obj (
    field "role" (str (if kind_eq b.kind assistant then "assistant" else "user"))
      (field "content" (get_or "native_content" (str b.content) b.metadata) end))

unfoldable pub set_system : List ContextBlock → Fields → Fields
set_system [] payload = payload
set_system (b ∷ []) payload =
    set "system" (get_or "native_content" (str b.content) b.metadata) payload
set_system (b ∷ c ∷ bs) payload = set "system" (str (join_lines (contents (b ∷ c ∷ bs)))) payload

unfoldable pub anthropic_to_native : World → CanonicalRequest → Result Fields
anthropic_to_native w r = loaded_tools w r.tools >>= λ tools. ok (
    set "tools" (arr (of_list tools)) (
      set "messages" (arr (of_list (map anthropic_message (conversation_of r.blocks)))) (
        set_system (instructions_of r.blocks) (
          set_fields "thinking" r.model.reasoning (
            set "model" (str r.model.model)
              (merge (remove "llmcut_original" r.passthrough) r.model.parameters))))))

-- the integer that a value is, where a Boolean is 0 or 1
abbrev integer_of : Json → Option ℤ
integer_of (int n) = some n
integer_of (boolean true) = some (pos 1)
integer_of (boolean false) = some (pos 0)
integer_of _ = none

abbrev added : World → Json → Json → Option ℤ → Option ℤ → Result Json
added w u v (some a) (some b) = ok (int (a +ℤ b))
added w u v _ _ = or_raise (w.add u v) (type_error "unsupported operand")

-- `a + b`
abbrev sum_of_counts : World → Json → Json → Result Json
sum_of_counts w a b = added w a b (integer_of a) (integer_of b)

unfoldable pub anthropic_usage : World → Fields → Result ProviderUsage
anthropic_usage w response = as_object (get_truthy "usage" (obj end) response) >>= λ usage.
    sum_of_counts w (get_or "cache_read_input_tokens" (int (pos 0)) usage)
      (get_or "cache_creation_input_tokens" (int (pos 0)) usage)
    >>= λ cached. ok (record {
      input_tokens = get_or "input_tokens" (int (pos 0)) usage;
      output_tokens = get_or "output_tokens" (int (pos 0)) usage;
      cached_tokens = cached;
      reasoning_tokens = int (pos 0);
    })

abbrev is_list : Option Json → Bool
is_list (some (arr vs)) = true
is_list _ = false

-- a Boolean is an `int` too
abbrev is_integer : Option Json → Bool
is_integer (some (int n)) = true
is_integer (some (boolean b)) = true
is_integer _ = false

unfoldable pub anthropic_validate : Fields → Result (Unit {0})
anthropic_validate payload =
    validate_model payload
    >> (if is_list (get "messages" payload) && is_integer (get "max_tokens" payload)
        then ok tt
        else err (value_error "Anthropic request requires messages and max_tokens"))

abbrev pub anthropic_adapter : World → ProviderAdapter
anthropic_adapter w = record {
  validate_native = anthropic_validate;
  from_native = anthropic_from_native w;
  to_native = anthropic_to_native w;
  usage = anthropic_usage w;
  semantically_equal = semantically_equal;
}
