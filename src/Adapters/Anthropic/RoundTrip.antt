-- ===== src/Adapters/Anthropic/RoundTrip.antt =====
-- A request in the form of src/llmcut/adapters/anthropic.py, to the canonical form and back.
use llmcut.Prelude.{
  ℕ, suc, String, Bool, true, false, Option, none, some, List, [], ◌∷◌, ◌++◌, map, ◌≡◌, refl, sym,
  ap, ◌∙◌, subst, arith, All, if◌then◌else◌, ◌≟◌,
}
use llmcut.Result.{ok, >>=-eq-ok, ok_inj}
use llmcut.Json.{
  Json, null, boolean, int, real, remove, str, arr, obj, Fields, field, end, get, set, of_list,
  items-of_list,
}
use llmcut.Json.Lookups.{get-set_self, get-set_other}
use llmcut.Json.Values.{loop_over, iterate_or_empty, to_dictionary, get_or, merge}
use llmcut.World.{World}
use llmcut.Model
use llmcut.Model.{ContextBlock, CanonicalRequest, new_block, kind_eq}
use llmcut.Adapters.Messages.{
  native_block, loaded_tools, tool_blocks, instructions_of, conversation_of, model_of, model_text,
}
use llmcut.Adapters.OpenAi.{set_fields}
use llmcut.Adapters.Anthropic.{
  anthropic_text, anthropic_blocks, anthropic_message, set_system, anthropic_from_native,
  anthropic_to_native, system_blocks, remembered,
}

-- a message as the provider documents it: of the assistant or the user, with its content
abbrev pub message : Bool × Json → Json
message (by_assistant, content) = obj (
    field "role" (str (if by_assistant then "assistant" else "user")) (field "content" content end))

-- The blocks of messages are messages again, and none of them is an instruction.
messages_back :
    (w : World) (n : ℕ) (cs : List (Bool × Json)) (bs : List ContextBlock)
    → anthropic_blocks w n (map message cs) ≡ ok bs
    → (map anthropic_message (conversation_of bs) ≡ map message cs) × (instructions_of bs ≡ [])
unfolding anthropic_blocks anthropic_message new_block kind_eq
messages_back w n [] bs h = rw (sym (ok_inj h)) (refl, refl)
messages_back w n ((true, c) ∷ cs) bs h =
    let (text, e, h1) = >>=-eq-ok (anthropic_text w c) _ h in
    let (rest, e1, h2) = >>=-eq-ok (anthropic_blocks w (suc n) (map message cs)) _ h1 in
    let (back, none_there) = messages_back w (suc n) cs rest e1 in
    rw (sym (ok_inj h2)) (ap (λ l. message (true, c) ∷ l) back, none_there)
messages_back w n ((false, c) ∷ cs) bs h =
    let (text, e, h1) = >>=-eq-ok (anthropic_text w c) _ h in
    let (rest, e1, h2) = >>=-eq-ok (anthropic_blocks w (suc n) (map message cs)) _ h1 in
    let (back, none_there) = messages_back w (suc n) cs rest e1 in
    rw (sym (ok_inj h2)) (ap (λ l. message (false, c) ∷ l) back, none_there)

-- Tools are read back where what is written is read as itself.
tools_back :
    (w : World) (source : String) (n : ℕ) (ts : List Json)
    → All (λ t. w.loads (w.dumps t) ≡ some t) ts
    → loaded_tools w (tool_blocks w source n ts) ≡ ok ts
unfolding loaded_tools tool_blocks new_block
tools_back w source n [] a = refl
tools_back w source n (t ∷ ts) a = rw (a.0, tools_back w source (suc n) ts a.1) refl

listed : (vs us : List Json) → iterate_or_empty (some (arr (of_list vs))) ≡ ok us → us ≡ vs
listed vs us h = sym (ok_inj h) ∙ items-of_list vs

get-set_fields :
    (k j : String) (d payload : Fields)
    → (k ≟ j) ≡ false
    → get k (set_fields j d payload) ≡ get k payload
get-set_fields k j end payload h = refl
get-set_fields k j (field i v d) payload h = get-set_other k j _ payload h

model_text-eq-ok : (o : Option Json) (m : String) → model_text o ≡ ok m → o ≡ some (str m)
model_text-eq-ok none m h = ground (arith, h)
model_text-eq-ok (some null) m h = ground (arith, h)
model_text-eq-ok (some (boolean b)) m h = ground (arith, h)
model_text-eq-ok (some (int n)) m h = ground (arith, h)
model_text-eq-ok (some (real x)) m h = ground (arith, h)
model_text-eq-ok (some (str s)) m h = ap (λ x. some (str x)) (ok_inj h)
model_text-eq-ok (some (arr vs)) m h = ground (arith, h)
model_text-eq-ok (some (obj d)) m h = ground (arith, h)

module _ (w : World) (payload : Fields) (system : Json) (cs : List (Bool × Json))
    (ts : List Json) where
  -- the payload of a canonical request whose parts are known
  sent :
      (r : CanonicalRequest) (bs : List ContextBlock) (text : String)
      → r.blocks
        ≡ native_block w "system" Model.system text "anthropic:system" (remembered system) ∷ bs
      → map anthropic_message (conversation_of bs) ≡ map message cs
      → instructions_of bs ≡ []
      → loaded_tools w r.tools ≡ ok ts
      → (out : Fields) × (anthropic_to_native w r ≡ ok out)
        × (get "system" out ≡ some system)
        × (get "messages" out ≡ some (arr (of_list (map message cs))))
        × (get "tools" out ≡ some (arr (of_list ts)))
        × (get "model" out ≡ some (str r.model.model))
  unfolding anthropic_to_native set_system new_block kind_eq
  sent r bs text same back none_there loaded =
      let base = merge (remove "llmcut_original" r.passthrough) r.model.parameters in
      let named = set "model" (str r.model.model) base in
      let thought = set_fields "thinking" r.model.reasoning named in
      let instructed = set "system" system thought in
      let messages = arr (of_list (map anthropic_message (conversation_of bs))) in
      let full = set "messages" messages instructed in
      let tools = arr (of_list ts) in
      rw (loaded, same, none_there)
        (
          set "tools" tools full,
          refl,
          get-set_other "system" "tools" tools full refl
              ∙ get-set_other "system" "messages" messages instructed refl
              ∙ get-set_self "system" system thought,
          get-set_other "messages" "tools" tools full refl
              ∙ get-set_self "messages" messages instructed
              ∙ ap (λ l. some (arr (of_list l))) back,
          get-set_self "tools" tools full,
          get-set_other "model" "tools" tools full refl
              ∙ get-set_other "model" "messages" messages instructed refl
              ∙ get-set_other "model" "system" system thought refl
              ∙ get-set_fields "model" "thinking" r.model.reasoning named refl
              ∙ get-set_self "model" (str r.model.model) base,
        )

  -- A request that has a system text, messages of the documented form and tools comes back with the same
  -- system text, messages, tools and model, where each tool is read back as it is written.
  pub to_native-from_native :
      (r : CanonicalRequest)
      → anthropic_from_native w payload ≡ ok r
      → get "system" payload ≡ some system
      → get "messages" payload ≡ some (arr (of_list (map message cs)))
      → get "tools" payload ≡ some (arr (of_list ts))
      → All (λ t. w.loads (w.dumps t) ≡ some t) ts
      → (out : Fields) × (anthropic_to_native w r ≡ ok out)
        × (get "system" out ≡ get "system" payload)
        × (get "messages" out ≡ get "messages" payload)
        × (get "tools" out ≡ get "tools" payload)
        × (get "model" out ≡ get "model" payload)
  unfolding anthropic_from_native
  to_native-from_native r h has_system has_messages has_tools readable =
      let (systems, e, h1) = >>=-eq-ok (system_blocks w (get "system" payload)) _ h in
      let (messages, e1, h2) = >>=-eq-ok (loop_over "messages" payload) _ h1 in
      let (bs, e2, h3) = >>=-eq-ok (anthropic_blocks w 0 messages) _ h2 in
      let (tools, e3, h4) = >>=-eq-ok (loop_over "tools" payload) _ h3 in
      let (model, e4, h5) = >>=-eq-ok (model_of payload) _ h4 in
      let (thinking, e5, h6) =
        >>=-eq-ok (to_dictionary (get_or "thinking" (obj end) payload)) _ h5 in
      let (text, e6, h7) =
        >>=-eq-ok (anthropic_text w system) _ (ap (system_blocks w) (sym has_system) ∙ e) in
      let own = listed (map message cs) messages (ap iterate_or_empty (sym has_messages) ∙ e1) in
      let own_tools = listed ts tools (ap iterate_or_empty (sym has_tools) ∙ e3) in
      let (back, none_there) =
        messages_back w 0 cs bs (subst (λ l. anthropic_blocks w 0 l ≡ ok bs) own e2) in
      let same = ok_inj h6 in
      let (out, e7, s, m, t, n) =
        sent r bs text
          (ap (λ (q : CanonicalRequest). q.blocks) (sym same) ∙ ap (λ l. l ++ bs) (sym (ok_inj h7)))
          back none_there
          (ap (λ (q : CanonicalRequest). loaded_tools w q.tools) (sym same)
            ∙ ap (λ l. loaded_tools w (tool_blocks w "anthropic:tools" 0 l)) own_tools
            ∙ tools_back w "anthropic:tools" 0 ts readable) in
      (
        out,
        e7,
        s ∙ sym has_system,
        m ∙ sym has_messages,
        t ∙ sym has_tools,
        n
            ∙ ap (λ (q : CanonicalRequest). some (str q.model.model)) (sym same)
            ∙ sym (model_text-eq-ok (get "model" payload) model e4),
      )
