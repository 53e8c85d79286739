-- ===== src/Codex/Events/Bounds.antt =====
-- What the events of src/llmcut/integrations/codex/events.py can carry.
use llmcut.Prelude.{
  ℕ, zero, suc, ◌≤◌, String, Bool, true, false, Option, none, some, [], ◌∷◌, elem, is_empty,
  if◌then◌else◌, ◌≟◌, ◌||◌, ◌≡◌, refl, arith,
}
use llmcut.Json.{Json, null, boolean, int, real, str, arr, obj, Fields, field, end, get, is_text}
use llmcut.World.{World}
use llmcut.Codex.Events.{
  NormalizedEvent, max_event_text, clip, object_of, text_at, scalar, scalars, bounded_scalars,
  usage_of, event, item_event, other_event, or_event, event_of_method, normalize_event, is_warning,
}

-- the characters of a text
abbrev pub count : String → ℕ
count String.[] = 0
count (String.◌∷◌ c t) = suc (count t)

count-clip : (n : ℕ) (t : String) → count (clip n t) ≤ n
count-clip zero t = omega arith
count-clip (suc n) String.[] = omega arith
count-clip (suc n) (String.◌∷◌ c t) = omega (arith, count-clip n t)

-- a value that is a number, a Boolean, null, or a text that is not too long
abbrev pub IsScalar : Json → Type 0
IsScalar (str t) = count t ≤ max_event_text
IsScalar (arr vs) = ⊥
IsScalar (obj d) = ⊥
IsScalar _ = Unit

abbrev pub AreScalars : ℕ → Fields → Type 0
AreScalars n end = Unit
AreScalars zero (field k v d) = ⊥
AreScalars (suc n) (field k v d) = IsScalar v × AreScalars n d

scalar-IsScalar : (w : World) (v : Json) → IsScalar (scalar w v)
scalar-IsScalar w null = tt
scalar-IsScalar w (boolean b) = tt
scalar-IsScalar w (int n) = tt
scalar-IsScalar w (real x) = tt
scalar-IsScalar w (str t) = count-clip max_event_text t
scalar-IsScalar w (arr vs) = count-clip max_event_text (w.to_str (arr vs))
scalar-IsScalar w (obj d) = count-clip max_event_text (w.to_str (obj d))

scalars-AreScalars : (w : World) (n : ℕ) (d : Fields) → AreScalars n (scalars w n d)
scalars-AreScalars w zero d = tt
scalars-AreScalars w (suc n) end = tt
scalars-AreScalars w (suc n) (field k v d) = (scalar-IsScalar w v, scalars-AreScalars w n d)

-- an event of a kind whose data come from the program unread
pub record IsBoundedEvent (e : NormalizedEvent) : Type 0 where
  pub scalars_if : elem e.kind ("usage_update" ∷ "warning" ∷ []) ≡ true → AreScalars 64 e.payload

-- and an event that there may be
data IsBoundedOption : Option NormalizedEvent → Type 0 where
  nothing : IsBoundedOption none
  just : {e : NormalizedEvent} → IsBoundedEvent e → IsBoundedOption (some e)

if_either {ℓ} :
    {A : Type 0} (P : A → Type ℓ) (b : Bool) {x y : A} → P x → P y → P (if b then x else y)
if_either P true p q = p
if_either P false p q = q

-- an event of another kind
other_kind :
    (kind method : String) (d : Fields)
    → elem kind ("usage_update" ∷ "warning" ∷ []) ≡ false
    → IsBoundedEvent (event kind method d)
other_kind kind method d h = record { scalars_if = λ e. ground (arith, h, e) }

-- an event whose kind is one of two others
either_kind :
    (b : Bool) (k j method : String) (d : Fields)
    → elem k ("usage_update" ∷ "warning" ∷ []) ≡ false
    → elem j ("usage_update" ∷ "warning" ∷ []) ≡ false
    → IsBoundedEvent (event (if b then k else j) method d)
either_kind b k j method d h i =
    other_kind (if b then k else j) method d
      (if_either (λ x. elem x ("usage_update" ∷ "warning" ∷ []) ≡ false) b h i)

of_scalars :
    (w : World) (kind method : String) (d : Fields)
    → IsBoundedEvent (event kind method (bounded_scalars w d))
of_scalars w kind method d = record { scalars_if = λ e. scalars-AreScalars w 64 d }

item_event-IsBoundedOption :
    (w : World) (method : String) (item : Fields) → IsBoundedOption (item_event w method item)
unfolding item_event
item_event-IsBoundedOption w method item =
    let kind = text_at w "type" item in
    if_either IsBoundedOption (kind ≟ "reasoning") (just (other_kind "opaque" method _ refl)) (
      if_either IsBoundedOption (kind ≟ "commandExecution")
        (just (other_kind "command_execution" method _ refl))
        (if_either IsBoundedOption (kind ≟ "fileChange")
          (just (other_kind "file_change" method _ refl))
          (if_either IsBoundedOption (kind ≟ "mcpToolCall")
            (just (
              either_kind (method ≟ "item/completed") "mcp_result" "mcp_tool_call" method _ refl
                refl))
            nothing)))

other_event-IsBoundedEvent :
    (w : World) (method : String) (params : Fields) → IsBoundedEvent (other_event w method params)
unfolding other_event
other_event-IsBoundedEvent w method params =
    if_either IsBoundedEvent (method ≟ "error") (other_kind "error" method _ refl) (
      if_either IsBoundedEvent (is_warning w method) (of_scalars w "warning" method params)
        (other_kind "opaque" method _ refl))

or_event-IsBoundedEvent :
    (o : Option NormalizedEvent) (e : NormalizedEvent)
    → IsBoundedOption o
    → IsBoundedEvent e
    → IsBoundedEvent (or_event o e)
or_event-IsBoundedEvent none e nothing q = q
or_event-IsBoundedEvent (some d) e (just p) q = p

event_of_method-IsBoundedEvent :
    (w : World) (method : String) (params : Fields)
    → IsBoundedEvent (event_of_method w method params)
unfolding event_of_method
event_of_method-IsBoundedEvent w method params =
    let others = other_event-IsBoundedEvent w method params in
    if_either IsBoundedEvent (method ≟ "thread/started") (other_kind "thread_started" method _ refl)
      (if_either IsBoundedEvent (method ≟ "turn/started") (other_kind "turn_started" method _ refl)
        (if_either IsBoundedEvent (method ≟ "turn/completed")
          (either_kind (is_text "failed" (get "status" (object_of (get "turn" params))))
            "turn_failed" "turn_completed" method _ refl refl)
          (if_either IsBoundedEvent (method ≟ "thread/tokenUsage/updated")
            (of_scalars w "usage_update" method (usage_of params))
            (if_either IsBoundedEvent (method ≟ "model/rerouted") (other_kind "error" method _ refl)
              (if_either IsBoundedEvent ((method ≟ "item/started") || (method ≟ "item/completed"))
                (or_event-IsBoundedEvent _ _
                  (item_event-IsBoundedOption w method (object_of (get "item" params))) others)
                others)))))

-- A message has an event exactly where its method is not empty. An event on usage or a warning, whose data
-- come from the message as they are, has at most 64 entries, each of them a number, a Boolean, null or a
-- text of at most 16,384 characters.
pub normalize_event-IsBoundedEvent :
    (w : World) (message : Fields)
    → (is_empty (text_at w "method" message) ≡ true → normalize_event w message ≡ none)
      × (is_empty (text_at w "method" message) ≡ false
          → (e : NormalizedEvent) × (normalize_event w message ≡ some e) × IsBoundedEvent e)
unfolding normalize_event
normalize_event-IsBoundedEvent w message = (
  λ h. rw h refl,
  λ h. rw h (
    _,
    refl,
    event_of_method-IsBoundedEvent w (text_at w "method" message)
        (object_of (get "params" message)),
  ),
)

-- Of an item that is reasoning nothing is kept but its status: two such items with one status have the same
-- event, whatever else they hold.
pub normalize_event_reasoning :
    (w : World) (method : String) (item other : Fields)
    → text_at w "type" item ≡ "reasoning"
    → text_at w "type" other ≡ "reasoning"
    → text_at w "status" item ≡ text_at w "status" other
    → item_event w method item ≡ item_event w method other
unfolding item_event
normalize_event_reasoning w method item other t u same = rw (t, u, same) refl
