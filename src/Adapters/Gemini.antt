-- ===== src/Adapters/Gemini.antt =====
-- `GeminiAdapter` of src/llmcut/adapters/gemini.py.
use llmcut.Prelude.{
  ℕ, suc, String, Bool, true, false, Option, none, some, List, [], ◌∷◌, ◌++◌, map, if◌then◌else◌,
  is_empty,
}
use llmcut.Result.{Result, ok, err, ◌>>=◌, type_error, value_error}
use llmcut.Json.{
  Json, null, str, arr, obj, int, boolean, nil, cons, Fields, field, end, pos, get, set, without,
  of_list, is_text, truthy,
}
use llmcut.Json.Values.{
  get_or, get_truthy, as_object, loop_over, iterate_or_empty, merge, to_dictionary, extra_items,
}
use llmcut.World.{World}
use llmcut.Model.{system, user, assistant, kind_eq, ContextBlock, CanonicalRequest}
use llmcut.Core.Recover.{join_lines}
use llmcut.Adapters.{ProviderAdapter, ProviderUsage, semantically_equal}
use llmcut.Adapters.Messages.{
  numbered, native_block, tool_blocks, loaded_tools, instructions_of, conversation_of, contents,
}
use llmcut.Adapters.OpenAi.{set_fields}
use llmcut.Adapters.Anthropic.{part_text}

abbrev part_texts : World → List Json → Result (List String)
part_texts w [] = ok []
part_texts w (v ∷ vs) =
    as_object v >>= λ d. part_text w d >>= λ t. part_texts w vs >>= λ ts. ok (t ∷ ts)

-- `_parts`
unfoldable pub gemini_text : World → Json → Result String
gemini_text w parts =
    iterate_or_empty (some parts) >>= λ vs. part_texts w vs >>= λ ts. ok (join_lines ts)

abbrev parts_of : Fields → Json
parts_of d = get_or "parts" (arr nil) d

abbrev system_blocks : World → Option Json → Result (List ContextBlock)
system_blocks w none = ok []
system_blocks w (some v) =
    if truthy v
    then (as_object v >>= λ d. gemini_text w (parts_of d) >>= λ text. ok (
        native_block w "system" system text "gemini:systemInstruction"
          (field "native" v (field "dedupe_safe" (boolean false) end))
        ∷ []))
    else ok []

unfoldable pub gemini_blocks : World → ℕ → List Json → Result (List ContextBlock)
gemini_blocks w n [] = ok []
gemini_blocks w n (v ∷ vs) = as_object v >>= λ d. gemini_text w (parts_of d) >>= λ text.
    gemini_blocks w (suc n) vs >>= λ bs. ok (
      native_block w (numbered w "content" n)
        (if is_text "model" (get "role" d) then assistant else user) text "gemini:contents"
        (field "native_parts" (parts_of d) (field "dedupe_safe" (boolean false) end))
      ∷ bs)

-- the function declarations of all tools, and what else the tools hold
unfoldable pub declarations_of : List Json → Result (List Json × List Json)
declarations_of [] = ok ([], [])
declarations_of (v ∷ vs) = as_object v >>= λ d. loop_over "functionDeclarations" d >>= λ declared.
    declarations_of vs >>= λ rest.
    ok (declared ++ rest.0, extra_items (without ("functionDeclarations" ∷ []) d) rest.1)

abbrev known : List String
known =
    "model" ∷ "systemInstruction" ∷ "contents" ∷ "tools" ∷ "generationConfig" ∷ "cachedContent" ∷ []

abbrev keep_others : List Json → Fields → Fields
keep_others [] d = d
keep_others (v ∷ vs) d = set "gemini_other_tools" (arr (of_list (v ∷ vs))) d

-- `payload.get("model", "")`; a value that is no text is not carried along
abbrev model_or_empty : Option Json → Result String
model_or_empty none = ok ""
model_or_empty (some (str s)) = ok s
model_or_empty (some _) = err (type_error "model is no text")

abbrev cache_of : Option Json → Fields
cache_of none = end
cache_of (some v) = field "cachedContent" v end

unfoldable pub gemini_from_native : World → Fields → Result CanonicalRequest
gemini_from_native w payload = system_blocks w (get "systemInstruction" payload) >>= λ systems.
    loop_over "contents" payload >>= λ messages. gemini_blocks w 0 messages >>= λ blocks.
    loop_over "tools" payload >>= λ tools. declarations_of tools >>= λ split.
    model_or_empty (get "model" payload) >>= λ model.
    to_dictionary (get_or "generationConfig" (obj end) payload) >>= λ parameters. ok (record {
      blocks = systems ++ blocks;
      model = record {
        provider = "gemini";
        model = model;
        parameters = parameters;
        reasoning = end;
        token_budget = none;
      };
      tools = tool_blocks w "gemini:tools" 0 split.0;
      cache = cache_of (get "cachedContent" payload);
      passthrough = keep_others split.1 (without known payload);
      request_id = none;
    })

abbrev text_part : String → Json
text_part s = obj (field "text" (str s) end)

unfoldable pub gemini_content : ContextBlock → Json
gemini_content b = obj (
    field "role" (str (if kind_eq b.kind assistant then "model" else "user"))
      (field "parts" (get_or "native_parts" (arr (cons (text_part b.content) nil)) b.metadata) end))

unfoldable pub set_instruction : List ContextBlock → Fields → Fields
set_instruction [] payload = payload
set_instruction (b ∷ []) payload = set "systemInstruction" (get_or "native" null b.metadata) payload
set_instruction (b ∷ c ∷ bs) payload =
    set "systemInstruction"
      (obj (field "parts" (arr (cons (text_part (join_lines (contents (b ∷ c ∷ bs)))) nil)) end))
      payload

abbrev set_model : String → Fields → Fields
set_model m payload = if is_empty m then payload else set "model" (str m) payload

abbrev grouped : List Json → List Json
grouped [] = []
grouped (v ∷ vs) = obj (field "functionDeclarations" (arr (of_list (v ∷ vs))) end) ∷ []

unfoldable pub gemini_to_native : World → CanonicalRequest → Result Fields
gemini_to_native w r = loaded_tools w r.tools >>= λ declarations.
    loop_over "gemini_other_tools" r.passthrough >>= λ others. ok (
      merge
        (set_fields "generationConfig" r.model.parameters (
          set "tools" (arr (of_list (grouped declarations ++ others))) (
            set "contents" (arr (of_list (map gemini_content (conversation_of r.blocks)))) (
              set_instruction (instructions_of r.blocks) (
                set_model r.model.model
                  (without ("llmcut_original" ∷ "gemini_other_tools" ∷ []) r.passthrough))))))
        r.cache)

unfoldable pub gemini_usage : Fields → Result ProviderUsage
gemini_usage response = as_object (get_truthy "usageMetadata" (obj end) response) >>= λ usage.
    ok (record {
      input_tokens = get_or "promptTokenCount" (int (pos 0)) usage;
      output_tokens = get_or "candidatesTokenCount" (int (pos 0)) usage;
      cached_tokens = get_or "cachedContentTokenCount" (int (pos 0)) usage;
      reasoning_tokens = get_or "thoughtsTokenCount" (int (pos 0)) usage;
    })

abbrev is_list : Option Json → Bool
is_list (some (arr vs)) = true
is_list _ = false

unfoldable pub gemini_validate : Fields → Result (Unit {0})
gemini_validate payload =
    if is_list (get "contents" payload)
    then ok tt
    else err (value_error "Gemini request requires a contents list")

abbrev pub gemini_adapter : World → ProviderAdapter
gemini_adapter w = record {
  validate_native = gemini_validate;
  from_native = gemini_from_native w;
  to_native = gemini_to_native w;
  usage = gemini_usage;
  semantically_equal = semantically_equal;
}
