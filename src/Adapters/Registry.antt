-- ===== src/Adapters/Registry.antt =====
-- `adapter_for` of src/llmcut/adapters/registry.py.
use llmcut.Prelude.{String, Bool, ◌&&◌, ◌||◌, if◌then◌else◌, ◌≟◌}
use llmcut.World.{World}
use llmcut.Adapters.{ProviderAdapter}
use llmcut.Adapters.OpenAi.{openai_adapter, chat, responses}
use llmcut.Adapters.Anthropic.{anthropic_adapter}
use llmcut.Adapters.Gemini.{gemini_adapter}

-- `path.rstrip("/")`
abbrev strip_slashes : String → String
strip_slashes String.[] = ""
strip_slashes (String.◌∷◌ c s) =
    let rest = strip_slashes s in
    if (rest ≟ "") && (String.◌∷◌ c String.[] ≟ "/") then "" else String.◌∷◌ c rest

-- `path.endswith(suffix)`
abbrev ends_with : String → String → Bool
ends_with suffix String.[] = suffix ≟ ""
ends_with suffix (String.◌∷◌ c s) = (suffix ≟ String.◌∷◌ c s) || ends_with suffix s

unfoldable pub adapter_for : World → String → String → ProviderAdapter × String
adapter_for w kind path =
    if kind ≟ "anthropic"
    then (anthropic_adapter w, "messages")
    else if kind ≟ "gemini"
    then (gemini_adapter w, "generate-content")
    else if ends_with "responses" (strip_slashes (w.lower path))
    then (openai_adapter w responses, "responses")
    else (openai_adapter w chat, "chat-completions")
