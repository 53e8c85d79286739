-- ===== src/Tests/Evented.antt =====
-- A warning, and two items of reasoning.
use llmcut.Prelude.{String, true, false, none, some, ◌≡◌, is_empty, refl}
use llmcut.Json.{str, obj, arr, nil, Fields, field, end}
use llmcut.Codex.Events.{NormalizedEvent, item_event, normalize_event}
use llmcut.Codex.Events.Bounds.{
  IsBoundedEvent, normalize_event-IsBoundedEvent, normalize_event_reasoning,
}
use llmcut.Tests.Fixtures.{world}

abbrev warned : Fields
warned =
    field "method" (str "configWarning")
      (field "params" (obj (field "summary" (str "old") (field "details" (arr nil) end))) end)

normalize_event-IsBoundedEvent_example :
    (is_empty "configWarning" ≡ true → normalize_event world warned ≡ none)
    × (is_empty "configWarning" ≡ false
        → (e : NormalizedEvent) × (normalize_event world warned ≡ some e) × IsBoundedEvent e)
normalize_event-IsBoundedEvent_example = normalize_event-IsBoundedEvent world warned

abbrev thought : String → Fields
thought t = field "type" (str "reasoning") (field "text" (str t) end)

normalize_event_reasoning_example :
    item_event world "item/completed" (thought "a secret")
    ≡ item_event world "item/completed" (thought "another")
normalize_event_reasoning_example =
    normalize_event_reasoning world "item/completed" (thought "a secret") (thought "another") refl
      refl refl
