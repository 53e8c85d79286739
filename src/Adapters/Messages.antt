-- ===== src/Adapters/Messages.antt =====
-- What the three adapters share: tools as blocks and back, and the blocks of instructions.
use Prim.Native.String.{◌++◌ as join}
use llmcut.Prelude.{
  ℕ, suc, String, Bool, not, ◌||◌, Option, none, some, List, [], ◌∷◌, map, keep_if,
}
use llmcut.Result.{Result, ok, err, ◌>>=◌, or_raise, key_error, type_error, decode_error}
use llmcut.Json.{Json, int, str, Fields, end, pos, get}
use llmcut.World.{World}
use llmcut.Model.{
  BlockKind, system, developer, tool_definition, kind_eq, required, ContextBlock, new_block,
}

-- `f"{prefix}:{index}"`
abbrev pub numbered : World → String → ℕ → String
numbered w prefix n = join prefix (join ":" (w.to_str (int (pos n))))

-- a block as the adapters make them: its retention is the default
abbrev pub native_block : World → String → BlockKind → String → String → Fields → ContextBlock
native_block w id kind text source metadata = new_block w id kind text source metadata required

-- the blocks of the tools, as compact JSON
unfoldable pub tool_blocks : World → String → ℕ → List Json → List ContextBlock
tool_blocks w source n [] = []
tool_blocks w source n (t ∷ ts) =
    native_block w (numbered w "tool" n) tool_definition (w.dumps t) source end
    ∷ tool_blocks w source (suc n) ts

-- `[json.loads(tool.content) for tool in request.tools]`
unfoldable pub loaded_tools : World → List ContextBlock → Result (List Json)
loaded_tools w [] = ok []
loaded_tools w (t ∷ ts) = or_raise (w.loads t.content) (decode_error "invalid JSON") >>= λ v.
    loaded_tools w ts >>= λ vs. ok (v ∷ vs)

abbrev pub is_instruction : ContextBlock → Bool
is_instruction b = kind_eq b.kind system || kind_eq b.kind developer

abbrev pub instructions_of : List ContextBlock → List ContextBlock
instructions_of = keep_if is_instruction

abbrev pub conversation_of : List ContextBlock → List ContextBlock
conversation_of = keep_if (λ b. not (is_instruction b))

abbrev pub contents : List ContextBlock → List String
contents = map (λ (b : ContextBlock). b.content)

abbrev pub model_text : Option Json → Result String
model_text none = err (key_error "model")
model_text (some (str s)) = ok s
model_text (some _) = err (type_error "model is no text")

-- `payload["model"]`; the callers validate it, a value that is no text is not carried along
abbrev pub model_of : Fields → Result String
model_of payload = model_text (get "model" payload)
