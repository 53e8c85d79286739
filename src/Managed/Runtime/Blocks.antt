-- ===== src/Managed/Runtime/Blocks.antt =====
-- `_add_retrieval_tools`, `_assistant_block` and `_retrieval_block` of src/llmcut/managed/runtime.py:
-- what the runtime adds to the request that it works on.
use Prim.Native.String.{◌++◌ as join}
use llmcut.Prelude.{ℕ, String, false, none, some, List, ◌++◌, map, if◌then◌else◌, ◌≟◌}
use llmcut.Result.{Result, ok, err, ◌>>=◌, attribute_error}
use llmcut.Json.{
  Json, null, str, arr, obj, int, boolean, cons, nil, Fields, field, end, pos, get, set, remove,
  truthy,
}
use llmcut.Json.Values.{get_or}
use llmcut.World.{World}
use llmcut.Model.{
  tool_definition, assistant, tool_result, required, ContextBlock, CanonicalRequest, new_block,
}
use llmcut.Managed.Retrieval.{RetrievalResult}
use llmcut.Managed.Runtime.Calls.{openai_message, gemini_parts}

abbrev text_field : ℕ → Json
text_field n = obj (field "type" (str "string") (field "maxLength" (int (pos n)) end))

abbrev line_field : Json
line_field = obj (field "type" (str "integer") (field "minimum" (int (pos 1)) end))

abbrev parameters : Json
parameters = obj (
    field "type" (str "object") (
      field "properties"
        (obj (
          field "id" (text_field 128) (
            field "name" (text_field 128) (
              field "start" line_field (
                field "end" line_field (
                  field "pattern" (text_field 256) (
                    field "symbol" (text_field 256) (field "dependency" (text_field 128) end))))))))
        (field "additionalProperties" (boolean false) end)))

abbrev description : String → Json
description operation =
    str (join "Retrieve exact locally retained evidence using " (join operation "."))

abbrev schema : String → Json
schema operation = obj (
    field "name" (str operation)
      (field "description" (description operation) (field "parameters" parameters end)))

-- the schema in the form of the provider
unfoldable pub tool_schema : String → String → Json
tool_schema provider operation =
    if provider ≟ "anthropic"
    then obj (
        field "name" (str operation)
          (field "description" (description operation) (field "input_schema" parameters end)))
    else if provider ≟ "openai"
    then obj (field "type" (str "function") (field "function" (schema operation) end))
    else schema operation

unfoldable pub retrieval_tool : World → String → String → ContextBlock
retrieval_tool w provider operation =
    new_block w (join "retrieval-tool:" operation) tool_definition
      (w.dumps (tool_schema provider operation)) "managed:retrieval-tools" end required

-- `_add_retrieval_tools`
unfoldable pub add_retrieval_tools :
    World → CanonicalRequest → List String → String → CanonicalRequest
add_retrieval_tools w r operations provider = record r {
  tools = r.tools ++ map (retrieval_tool w provider) operations;
}

-- `content or ""`; a content that is no text has no digest
abbrev content_text : Json → Result String
content_text (str s) = ok s
content_text v = if truthy v then err (attribute_error "encode") else ok ""

abbrev turn_block : World → ℕ → String → Fields → ContextBlock
turn_block w turn content metadata =
    new_block w (join "assistant:" (w.to_str (int (pos turn)))) assistant content "managed:provider"
      metadata required

-- `{"native_content": content, **message}`
abbrev openai_metadata : Json → Fields → Fields
openai_metadata content message = elim (get "native_content" message) [
  | none ↦ field "native_content" content message
  | some last ↦ field "native_content" last (remove "native_content" message)
]

-- `_assistant_block`
unfoldable pub assistant_block : World → String → Fields → ℕ → Result ContextBlock
assistant_block w provider response turn =
    if provider ≟ "openai"
    then (openai_message response >>= λ message.
        let content = get_or "content" null message in
        content_text content >>= λ text. ok (
          turn_block w turn text
            (openai_metadata content (remove "role" (remove "content" message)))))
    else if provider ≟ "anthropic"
    then ok (
        turn_block w turn (w.dumps (get_or "content" (arr nil) response))
          (field "native_content" (get_or "content" (arr nil) response) end))
    else (gemini_parts response >>= λ parts.
        ok (turn_block w turn (w.dumps parts) (field "native_parts" parts end)))

-- what a provider wants beside the text of a result
abbrev native_result : String → RetrievalResult → String → String → Fields → Fields
native_result provider result call_id operation base =
    if provider ≟ "anthropic"
    then set "native_content"
        (arr (
          cons
            (obj (
              field "type" (str "tool_result")
                (field "tool_use_id" (str call_id) (field "content" (str result.content) end))))
            nil))
        base
    else if provider ≟ "gemini"
    then set "native_parts"
        (arr (
          cons
            (obj (
              field "functionResponse"
                (obj (
                  field "name" (str operation)
                    (field "response" (obj (field "content" (str result.content) end)) end)))
                end))
            nil))
        base
    else base

-- `_retrieval_block`
unfoldable pub retrieval_block :
    World → String → RetrievalResult → String → String → ℕ → ContextBlock
retrieval_block w provider result call_id operation number =
    new_block w (join "retrieval:" (w.to_str (int (pos number)))) tool_result result.content
      result.source
      (native_result provider result call_id operation
        (field "tool_call_id" (str call_id) (field "name" (str operation) end)))
      required
