-- ===== src/Core/History/Compacted.antt =====
-- What `compact_history` of src/llmcut/core/history.py makes of a history.
use llmcut.Prelude.{
  ◌<◌, String, Bool, true, false, ◌||◌, Option, none, some, List, [], ◌∷◌, ◌++◌, elem, discard, ltb,
  ◌≡◌, ◌⊎◌, ◌↔◌, inl, inr, refl, sym, ap, ◌∙◌, subst, arith, ltb→lt, Bool-cases, eq_iff, elem-add,
  elem-add_self, In, In-append_left, In-append_right, In-append_cases, In-keep_if, keep_if,
}
use llmcut.Result.{ok}
use llmcut.Json.{Json, str, get}
use llmcut.World.{World}
use llmcut.Model.{
  BlockKind, system, developer, tool_call, tool_result, kind_value, kind_of, kind_of-kind_value,
  kind_eq, ContextBlock,
}
use llmcut.Store.Evidence.{EvidenceStore}
use llmcut.Core.History.{
  Checkpoint, call_change, open_after, is_durable, checkpoint_block, candidate, size, smaller,
  compact_history, compact_history-eq-ok,
}

-- the text that a block has for its call
abbrev pub Names : ContextBlock → BlockKind → String → Type 0
Names b k i = (b.kind ≡ k) × (get "tool_call_id" b.metadata ≡ some (str i))

-- each tool call with a text identifier has a result with that identifier after it
abbrev pub AreAnswered : List ContextBlock → Type 0
AreAnswered blocks =
    (before after : List ContextBlock) (b : ContextBlock) (i : String)
    → blocks ≡ before ++ b ∷ after
    → Names b tool_call i
    → (r : ContextBlock) × In r after × Names r tool_result i

elem-discard :
    (i j : String) (calls : List String)
    → elem i calls ≡ true
    → elem i (discard j calls) ≡ false
    → j ≡ i
elem-discard i j [] h k = ground (arith, h)
elem-discard i j (x ∷ calls) h k =
    ground (arith, elem-discard i j calls, h, k, eq_iff i x, eq_iff j x, eq_iff j i)

dropped :
    (k : BlockKind) (v : Option Json) (calls : List String) (i : String)
    → elem i calls ≡ true
    → elem i (call_change k v calls) ≡ false
    → (k ≡ tool_result) × (v ≡ some (str i))
dropped tool_call (some (str j)) calls i h e = ground (arith, elem-add i j calls h, e)
dropped tool_result (some (str j)) calls i h e =
    (refl, ap (λ x. some (str x)) (elem-discard i j calls h e))
dropped _ _ calls i h e = ground (arith, h, e)

added :
    (b : ContextBlock) (calls : List String) (i : String)
    → Names b tool_call i
    → elem i (call_change b.kind (get "tool_call_id" b.metadata) calls) ≡ true
added b calls i (k, v) = rw (k, v) (elem-add_self i calls)

closed :
    (bs : List ContextBlock) (calls : List String) (i : String)
    → elem i calls ≡ true
    → open_after calls bs ≡ []
    → (r : ContextBlock) × In r bs × Names r tool_result i
unfolding open_after
closed [] calls i h e = ground (arith, subst (λ xs. elem i xs ≡ true) e h)
closed (b ∷ bs) calls i h e =
    let v = get "tool_call_id" b.metadata in
    elim (Bool-cases (elem i (call_change b.kind v calls))) [
      | inl still ↦
          let (r, at, name) = closed bs (call_change b.kind v calls) i still e in (r, inr at, name)
      | inr gone ↦ (b, inl refl, dropped b.kind v calls i h gone)
    ]

answered_from :
    (before after : List ContextBlock) (calls : List String) (b : ContextBlock) (i : String)
    → open_after calls (before ++ b ∷ after) ≡ []
    → Names b tool_call i
    → (r : ContextBlock) × In r after × Names r tool_result i
unfolding open_after
answered_from [] after calls b i h name =
    closed after (call_change b.kind (get "tool_call_id" b.metadata) calls) i (added b calls i name)
      h
answered_from (a ∷ before) after calls b i h name =
    answered_from before after (call_change a.kind (get "tool_call_id" a.metadata) calls) b i h name

kind_eq-eq : (a b : BlockKind) → kind_eq a b ≡ true → a ≡ b
unfolding kind_eq
kind_eq-eq a b h =
    ap (λ o. elim o [ none ↦ a | some k ↦ k ])
      (sym (kind_of-kind_value a)
        ∙ ap kind_of ((eq_iff (kind_value a) (kind_value b)).0 h)
        ∙ kind_of-kind_value b)

durable : (b : ContextBlock) → is_durable b ≡ true ↔ ((b.kind ≡ system) ⊎ (b.kind ≡ developer))
unfolding kind_eq
durable b = (
  λ h. elim (Bool-cases (kind_eq b.kind system)) [
    | inl e ↦ inl (kind_eq-eq b.kind system e)
    | inr e ↦
        inr (kind_eq-eq b.kind developer (subst (λ t. (t || kind_eq b.kind developer) ≡ true) e h))
  ],
  λ h. elim h [
    | inl e ↦ rw (ap (λ k. kind_eq k system || kind_eq k developer) e) refl
    | inr e ↦ rw (ap (λ k. kind_eq k system || kind_eq k developer) e) refl
  ],
)

-- the blocks of a compacted history
abbrev pub IsKept : World → List ContextBlock → Checkpoint → ContextBlock → Type 0
IsKept w blocks c b =
    (In b blocks × ((b.kind ≡ system) ⊎ (b.kind ≡ developer))) ⊎ (b ≡ checkpoint_block w c)

candidate-IsKept :
    (w : World) (blocks : List ContextBlock) (c : Checkpoint) (b : ContextBlock)
    → In b (candidate w c blocks) ↔ IsKept w blocks c b
candidate-IsKept w blocks c b = (
  λ h. elim (In-append_cases b (keep_if is_durable blocks) (checkpoint_block w c ∷ []) h) [
    | inl k ↦ let (at, d) = (In-keep_if is_durable b blocks).0 k in inl (at, (durable b).0 d)
    | inr k ↦ elim k [ inl e ↦ inr e | inr absent ↦ elim absent [ ] ]
  ],
  λ h. elim h [
    | inl k ↦
        In-append_left b (keep_if is_durable blocks) (checkpoint_block w c ∷ [])
          ((In-keep_if is_durable b blocks).1 (k.0, (durable b).1 k.1))
    | inr e ↦ In-append_right b (keep_if is_durable blocks) (checkpoint_block w c ∷ []) (inl e)
  ],
)

-- what a compaction gives
abbrev pub IsCompaction : World → List ContextBlock → Checkpoint → List ContextBlock × Bool → Type 0
IsCompaction w blocks c (new, true) =
    ((b : ContextBlock) → In b new ↔ IsKept w blocks c b) × (size new < size blocks)
IsCompaction w blocks c (new, false) = new ≡ blocks

smaller-IsCompaction :
    (w : World) (blocks : List ContextBlock) (c : Checkpoint)
    → IsCompaction w blocks c (smaller (candidate w c blocks) blocks)
smaller-IsCompaction w blocks c =
    elim (Bool-cases (ltb (size (candidate w c blocks)) (size blocks))) [
      | inl e ↦
          rw e (candidate-IsKept w blocks c, ltb→lt (size (candidate w c blocks)) (size blocks) e)
      | inr e ↦ rw e refl
    ]

-- A history is only replaced by one with fewer bytes, whose blocks are its system and developer blocks and
-- the checkpoint's, and no other; otherwise it comes back as it was. In either case each tool call of the
-- history that has a text for its identifier has a result with that identifier after it.
pub compact_history-IsCompaction :
    (w : World) (blocks : List ContextBlock) (c : Checkpoint) (revision : Option String)
    (s : EvidenceStore) (out : List ContextBlock × Bool)
    → (compact_history w blocks c revision s).0 ≡ ok out
    → IsCompaction w blocks c out × AreAnswered blocks
compact_history-IsCompaction w blocks c revision s out h =
    let (same, none_open) = compact_history-eq-ok w blocks c revision s out h in
    (
      subst (IsCompaction w blocks c) same (smaller-IsCompaction w blocks c),
      λ before after b i e name.
          answered_from before after [] b i (subst (λ bs. open_after [] bs ≡ []) e none_open) name,
    )
