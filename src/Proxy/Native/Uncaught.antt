-- ===== src/Proxy/Native/Uncaught.antt =====
-- `optimize_native` of src/llmcut/proxy/optimize.py on a chat request whose messages are a text.
use Prim.Native.Char.{Char}
use llmcut.Prelude.{String, some, ◌≡◌, refl}
use llmcut.Result.{ok, err, attribute_error}
use llmcut.Json.{str, Fields, get}
use llmcut.World.{World}
use llmcut.Policy.{OptimizationMode}
use llmcut.Tokens.{TokenCounter}
use llmcut.Store.Evidence.{EvidenceStore}
use llmcut.Adapters.{validate_model}
use llmcut.Adapters.OpenAi.{
  openai_adapter, chat, openai_validate, openai_from_native, blocks_from, chat_blocks,
}
use llmcut.Proxy.Native.{bounded_json, attempt, optimize_native}

-- A chat request with a model whose messages are a text that is not empty is valid for the adapter, but
-- `optimize_native` raises an `AttributeError` on it: its `except` clause does not name that error.
pub optimize_native_text_messages :
    (w : World) (endpoint : String) (optimizer counter : TokenCounter) (mode : OptimizationMode)
    (body : String) (payload : Fields) (c : Char) (t : String) (s : EvidenceStore)
    → bounded_json w body ≡ ok payload
    → validate_model payload ≡ ok tt
    → get "messages" payload ≡ some (str (String.◌∷◌ c t))
    → (openai_validate chat payload ≡ ok tt)
      × (optimize_native w (openai_adapter w chat) endpoint optimizer counter mode body s
          ≡ (err (attribute_error "get"), s))
unfolding optimize_native attempt openai_validate openai_from_native blocks_from chat_blocks
optimize_native_text_messages w endpoint optimizer counter mode body payload c t s decoded named
      text =
    rw (decoded, named, text) (refl, refl)
