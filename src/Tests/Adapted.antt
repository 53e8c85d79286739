-- ===== src/Tests/Adapted.antt =====
-- A request in the form of one provider and back, and a request whose messages are a text.
use llmcut.Prelude.{Bool, true, false, some, List, [], ◌∷◌, map, ◌≡◌, refl}
use llmcut.Result.{Result, ok, err, attribute_error}
use llmcut.Json.{Json, str, arr, obj, int, pos, Fields, field, end, get, of_list}
use llmcut.World.{World}
use llmcut.Policy.{parity}
use llmcut.Model.{CanonicalRequest}
use llmcut.Adapters.{validate_model}
use llmcut.Adapters.OpenAi.{openai_adapter, chat, openai_validate}
use llmcut.Adapters.Anthropic.{
  anthropic_from_native, anthropic_to_native, anthropic_blocks, anthropic_text,
}
use llmcut.Adapters.Anthropic.RoundTrip.{message, to_native-from_native}
use llmcut.Proxy.Native.{within_depth, bounded_json, optimize_native}
use llmcut.Proxy.Native.Uncaught.{optimize_native_text_messages}
use llmcut.Tests.Fixtures.{world, bytes, new_store, request}

abbrev tool : Json
tool = obj (field "name" (str "grep") end)

-- a world that reads back the tool
abbrev reader : World
reader = record world { loads = λ t. some tool }

abbrev messages : List (Bool × Json)
messages = (false, str "hello") ∷ (true, str "what is it?") ∷ []

abbrev payload : Fields
payload = field "model" (str "m") (
    field "max_tokens" (int (pos 9)) (
      field "system" (str "be exact") (
        field "messages" (arr (of_list (map message messages)))
          (field "tools" (arr (of_list (tool ∷ []))) end))))

abbrev read : Result CanonicalRequest → CanonicalRequest
read (ok r) = r
read (err e) = request

abbrev canonical : CanonicalRequest
canonical = read (anthropic_from_native reader payload)

read_ok : anthropic_from_native reader payload ≡ ok canonical
unfolding anthropic_from_native anthropic_blocks anthropic_text
read_ok = refl

to_native-from_native_example :
    (out : Fields) × (anthropic_to_native reader canonical ≡ ok out)
    × (get "system" out ≡ get "system" payload)
    × (get "messages" out ≡ get "messages" payload)
    × (get "tools" out ≡ get "tools" payload)
    × (get "model" out ≡ get "model" payload)
to_native-from_native_example =
    to_native-from_native reader payload (str "be exact") messages (tool ∷ []) canonical read_ok
      refl refl refl (refl, tt)

abbrev text_payload : Fields
text_payload = field "model" (str "m") (field "messages" (str "hello") end)

abbrev web : World
web = record world { loads = λ t. some (obj text_payload) }

parsed : bounded_json web "hello" ≡ ok text_payload
unfolding bounded_json within_depth
parsed = refl

named : validate_model text_payload ≡ ok tt
unfolding validate_model
named = refl

optimize_native_text_messages_example :
    (openai_validate chat text_payload ≡ ok tt)
    × (optimize_native web
          (openai_adapter web chat)
          "chat-completions"
          bytes
          bytes
          parity
          "hello"
          new_store
        ≡ (err (attribute_error "get"), new_store))
optimize_native_text_messages_example =
    optimize_native_text_messages web "chat-completions" bytes bytes parity "hello" text_payload "h"
      "ello" new_store parsed named refl
