-- ===== src/Managed/Runtime/Calls.antt =====
-- `_tool_calls` and `_output` of src/llmcut/managed/runtime.py: what a provider's response asks for.
use Prim.Native.String.{◌++◌ as join}
use text.Mathlib.Text.{find?}
use llmcut.Prelude.{
  ℕ, suc, String, Bool, true, false, ◌||◌, Option, none, some, List, [], ◌∷◌, any, is_empty,
  if◌then◌else◌, ◌≟◌,
}
use llmcut.Result.{Result, ok, err, ◌>>=◌, ◌>>◌, raise_if, or_raise, execution_error, type_error}
use llmcut.Json.{Json, null, str, arr, obj, int, cons, nil, Items, Fields, end, pos, get, is_text}
use llmcut.Json.Values.{
  get_or, get_truthy, as_object, first_item, loop_over, iterate_or_empty, text_of,
}
use llmcut.World.{World}

-- a call's identifier, the operation and its arguments
pub record Call : Type 0 where
  pub call_id : String
  pub operation : String
  pub arguments : Fields

-- the list of one empty object that stands in for missing choices
abbrev nothing : Json
nothing = arr (cons (obj end) nil)

abbrev not_an_object : Result Fields
not_an_object = err (execution_error "provider tool-call arguments must be an object")

abbrev must_be_object : Json → Result Fields
must_be_object (obj d) = ok d
must_be_object _ = not_an_object

-- arguments that are a text are JSON themselves
abbrev decoded : World → Json → Result Json
decoded w (str s) = or_raise (w.loads s) (execution_error "malformed provider tool-call arguments")
decoded w v = ok v

abbrev call_of : World → Fields → Fields → String → Fields → Call
call_of w ids names default arguments = record {
  call_id = text_of w (get_or "id" (str default) ids);
  operation = text_of w (get_or "name" (str "") names);
  arguments = arguments;
}

-- `(response.get("choices") or [{}])[0].get("message") or {}`
unfoldable pub openai_message : Fields → Result Fields
openai_message response = first_item (get_truthy "choices" nothing response) >>= λ choice.
    as_object choice >>= λ c. as_object (get_truthy "message" (obj end) c)

abbrev openai_call : World → Json → Result Call
openai_call w v = as_object v >>= λ item.
    as_object (get_or "function" (obj end) item) >>= λ function.
    decoded w (get_or "arguments" (obj end) function) >>= λ value.
    must_be_object value >>= λ arguments. ok (call_of w item function "" arguments)

unfoldable pub openai_calls : World → List Json → Result (List Call)
openai_calls w [] = ok []
openai_calls w (v ∷ vs) = openai_call w v >>= λ c. openai_calls w vs >>= λ cs. ok (c ∷ cs)

unfoldable pub anthropic_calls : World → List Json → Result (List Call)
anthropic_calls w [] = ok []
anthropic_calls w (v ∷ vs) = as_object v >>= λ item.
    let rest = anthropic_calls w vs in
    if is_text "tool_use" (get "type" item)
    then (must_be_object (get_or "input" (obj end) item) >>= λ arguments.
        rest >>= λ cs. ok (call_of w item item "" arguments ∷ cs))
    else rest

-- `((response.get("candidates") or [{}])[0].get("content") or {}).get("parts") or []`
unfoldable pub gemini_parts : Fields → Result Json
gemini_parts response = first_item (get_truthy "candidates" nothing response) >>= λ candidate.
    as_object candidate >>= λ c. as_object (get_truthy "content" (obj end) c) >>= λ content.
    ok (get_truthy "parts" (arr nil) content)

abbrev has_text : Items → Bool
has_text nil = false
has_text (cons v vs) = is_text "functionCall" (some v) || has_text vs

-- `item["functionCall"]`, where `"functionCall" in item`
abbrev function_call : Json → Result (Option Json)
function_call (obj d) = ok (get "functionCall" d)
function_call (arr vs) =
    if has_text vs then err (type_error "list indices must be integers") else ok none
function_call (str s) = elim (find? s "functionCall") [
  | none ↦ ok none
  | some _ ↦ err (type_error "string indices must be integers")
]
function_call _ = err (type_error "object is not iterable")

abbrev gemini_call : World → ℕ → Json → Result Call
gemini_call w n v = as_object v >>= λ call.
    must_be_object (get_or "args" (obj end) call) >>= λ arguments.
    ok (call_of w call call (join "call-" (w.to_str (int (pos n)))) arguments)

unfoldable pub gemini_calls : World → ℕ → List Json → Result (List Call)
gemini_calls w n [] = ok []
gemini_calls w n (v ∷ vs) = function_call v >>= λ found.
    let rest = gemini_calls w (suc n) vs in
    elim found [
      | none ↦ rest
      | some call ↦ gemini_call w n call >>= λ c. rest >>= λ cs. ok (c ∷ cs)
    ]

unfoldable pub native_calls : World → String → Fields → Result (List Call)
native_calls w provider response =
    if provider ≟ "openai"
    then (openai_message response >>= λ message.
        loop_over "tool_calls" message >>= λ vs. openai_calls w vs)
    else if provider ≟ "anthropic"
    then (loop_over "content" response >>= λ vs. anthropic_calls w vs)
    else (gemini_parts response >>= λ parts.
        iterate_or_empty (some parts) >>= λ vs. gemini_calls w 0 vs)

abbrev is_malformed : Call → Bool
is_malformed c = is_empty c.call_id || is_empty c.operation

-- `_tool_calls`
unfoldable pub tool_calls : World → String → Fields → Result (List Call)
tool_calls w provider response = native_calls w provider response >>= λ calls.
    raise_if (any is_malformed calls) (execution_error "malformed provider retrieval call")
    >> ok calls

abbrev texts_if : World → (Fields → Bool) → List Json → Result String
texts_if w test [] = ok ""
texts_if w test (v ∷ vs) = as_object v >>= λ item. texts_if w test vs >>= λ rest.
    ok (if test item then join (text_of w (get_or "text" (str "") item)) rest else rest)

-- `_output`
unfoldable pub output_of : World → String → Fields → Result Json
output_of w provider response =
    if provider ≟ "openai"
    then (openai_message response >>= λ message. ok (get_or "content" null message))
    else if provider ≟ "anthropic"
    then (loop_over "content" response >>= λ vs.
        texts_if w (λ d. is_text "text" (get "type" d)) vs >>= λ t. ok (str t))
    else (gemini_parts response >>= λ parts.
        iterate_or_empty (some parts) >>= λ vs. texts_if w (λ d. true) vs >>= λ t. ok (str t))
