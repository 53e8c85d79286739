-- ===== src/Codex/Events.antt =====
-- src/llmcut/integrations/codex/events.py: a message of the driven program becomes a normalized event.
pub mod Bounds
use Prim.Native.String.{len}
use text.Mathlib.Text.{find?}
use llmcut.Prelude.{
  ℕ, zero, suc, String, Bool, true, false, ◌||◌, Option, none, some, List, [], ◌∷◌, map, take,
  is_empty, if◌then◌else◌, ◌≟◌,
}
use llmcut.Json.{
  Json, null, boolean, int, real, str, arr, obj, Fields, field, end, pos, get, items, of_list,
  is_text, keys, truthy,
}
use llmcut.Json.Values.{get_or, get_truthy, text_of}
use llmcut.World.{World}

pub record NormalizedEvent : Type 0 where
  pub kind : String
  pub method : String
  pub payload : Fields

abbrev pub max_event_text : ℕ
max_event_text = 16384

-- `text[:n]`
abbrev pub clip : ℕ → String → String
clip zero t = ""
clip (suc n) String.[] = ""
clip (suc n) (String.◌∷◌ c t) = String.◌∷◌ c (clip n t)

-- `_object`; the value of a missing key is none
abbrev pub object_of : Option Json → Fields
object_of (some (obj d)) = d
object_of _ = end

-- `str(d.get(key, ""))`
abbrev pub text_at : World → String → Fields → String
text_at w k d = text_of w (get_or k (str "") d)

-- `_id`
abbrev pub id_of : World → Option Json → String
id_of w v = text_at w "id" (object_of v)

-- `_bounded`
abbrev pub bounded : World → Json → String
bounded w v = clip max_event_text (text_of w v)

abbrev pub scalar : World → Json → Json
scalar w (boolean b) = boolean b
scalar w (int n) = int n
scalar w (real x) = real x
scalar w null = null
scalar w v = str (bounded w v)

-- the first `n` entries of `_bounded_scalars`
abbrev pub scalars : World → ℕ → Fields → Fields
scalars w zero d = end
scalars w (suc n) end = end
scalars w (suc n) (field k v d) = field k (scalar w v) (scalars w n d)

-- `_bounded_scalars`
abbrev pub bounded_scalars : World → Fields → Fields
bounded_scalars w d = scalars w 64 d

abbrev pub event : String → String → Fields → NormalizedEvent
event kind method payload = record { kind = kind; method = method; payload = payload }

abbrev pub turn_event : World → String → Fields → NormalizedEvent
turn_event w method turn =
    event (if is_text "failed" (get "status" turn) then "turn_failed" else "turn_completed") method
      (field "turn_id" (str (text_at w "id" turn))
        (field "status" (str (text_at w "status" turn)) end))

-- `value or other`
abbrev or_object : Option Json → Json → Json
or_object none other = other
or_object (some v) other = if truthy v then v else other

-- the counts of a usage: the last, else the total, else what is there
abbrev pub usage_of : Fields → Fields
usage_of params =
    let usage =
      object_of
        (some (or_object (get "tokenUsage" params) (get_truthy "usage" (obj end) params))) in
    object_of (some (or_object (get "last" usage) (get_truthy "total" (obj usage) usage)))

abbrev changes_of : Option Json → List Json
changes_of (some (arr vs)) = items vs
changes_of _ = []

abbrev pub paths_of : World → Option Json → Json
paths_of w v =
    arr (of_list (map (λ c. str (text_at w "path" (object_of (some c)))) (take 256 (changes_of v))))

-- an item that is none of the known ones has no event of its own
unfoldable pub item_event : World → String → Fields → Option NormalizedEvent
item_event w method item =
    let kind = text_at w "type" item in
    let status = str (text_at w "status" item) in
    if kind ≟ "reasoning"
    then some
        (event "opaque" method (field "item_type" (str "reasoning") (field "status" status end)))
    else if kind ≟ "commandExecution"
    then some (
        event "command_execution" method (
          field "id" (str (text_at w "id" item)) (
            field "command" (str (bounded w (get_or "command" null item))) (
              field "cwd" (str (bounded w (get_or "cwd" null item)))
                (field "status" status (field "exit_code" (get_or "exitCode" null item) end))))))
    else if kind ≟ "fileChange"
    then some (
        event "file_change" method
          (field "paths" (paths_of w (get "changes" item)) (field "status" status end)))
    else if kind ≟ "mcpToolCall"
    then some (
        event (if method ≟ "item/completed" then "mcp_result" else "mcp_tool_call") method (
          field "id" (str (text_at w "id" item)) (
            field "server" (str (text_at w "server" item)) (
              field "tool" (str (text_at w "tool" item)) (
                field "status" status (
                  field "result_bytes"
                    (int (pos (len (w.dumps_plain (get_or "result" (str "") item))))) end))))))
    else none

-- `"warning" in method.lower()`
abbrev pub is_warning : World → String → Bool
is_warning w method = elim (find? (w.lower method) "warning") [ none ↦ false | some i ↦ true ]

-- what is left of a message that is not known
unfoldable pub other_event : World → String → Fields → NormalizedEvent
other_event w method params =
    if method ≟ "error"
    then event "error" method (
        field "message" (str (bounded w (get_or "message" null (object_of (get "error" params)))))
          end)
    else if is_warning w method
    then event "warning" method (bounded_scalars w params)
    else event "opaque" method
        (field "keys" (arr (of_list (map str (take 64 (w.sort_texts (keys params)))))) end)

abbrev pub or_event : Option NormalizedEvent → NormalizedEvent → NormalizedEvent
or_event none e = e
or_event (some e) other = e

unfoldable pub event_of_method : World → String → Fields → NormalizedEvent
event_of_method w method params =
    if method ≟ "thread/started"
    then event "thread_started" method (field "thread_id" (str (id_of w (get "thread" params))) end)
    else if method ≟ "turn/started"
    then event "turn_started" method (field "turn_id" (str (id_of w (get "turn" params))) end)
    else if method ≟ "turn/completed"
    then turn_event w method (object_of (get "turn" params))
    else if method ≟ "thread/tokenUsage/updated"
    then event "usage_update" method (bounded_scalars w (usage_of params))
    else if method ≟ "model/rerouted"
    then event "error" method (
        field "from_model" (str (text_at w "fromModel" params))
          (field "to_model" (str (text_at w "toModel" params)) end))
    else if (method ≟ "item/started") || (method ≟ "item/completed")
    then or_event (item_event w method (object_of (get "item" params)))
        (other_event w method params)
    else other_event w method params

-- `normalize_event`
unfoldable pub normalize_event : World → Fields → Option NormalizedEvent
normalize_event w message =
    let method = text_at w "method" message in
    if is_empty method
    then none
    else some (event_of_method w method (object_of (get "params" message)))
