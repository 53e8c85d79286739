-- ===== src/Model/Bound.antt =====
-- What may cross the adapter boundary: `model_bound_dict`, `model_bound_json` and the recovery
-- manifest of src/llmcut/model.py.
use llmcut.Prelude.{String, Option, none, some, List, [], ◌∷◌, ◌++◌, ◌≡◌, refl, arith}
use llmcut.Json.{Json, null, int, str, arr, obj, Items, nil, cons, field, end}
use llmcut.World.{World}
use llmcut.Model.{kind_value, retention_value, ContextBlock, ModelConfiguration, CanonicalRequest}

-- `public`
abbrev pub public : ContextBlock → Json
public b = obj (
    field "id" (str b.id)
      (field "kind" (str (kind_value b.kind)) (field "content" (str b.content) end)))

abbrev pub publics : List ContextBlock → Items
publics [] = nil
publics (b ∷ bs) = cons (public b) (publics bs)

abbrev or_null {ℓ} : {A : Type ℓ} → (A → Json) → Option A → Json
or_null f none = null
or_null f (some a) = f a

abbrev bound_model : ModelConfiguration → Json
bound_model m = obj (
    field "provider" (str m.provider) (
      field "model" (str m.model) (
        field "parameters" (obj m.parameters) (
          field "reasoning" (obj m.reasoning)
            (field "token_budget" (or_null int m.token_budget) end)))))

unfoldable pub model_bound_dict : CanonicalRequest → Json
model_bound_dict r = obj (
    field "blocks" (arr (publics r.blocks))
      (field "tools" (arr (publics r.tools)) (field "model" (bound_model r.model) end)))

unfoldable pub model_bound_json : World → CanonicalRequest → String
model_bound_json w r = w.dumps (model_bound_dict r)

abbrev texts : List String → Items
texts [] = nil
texts (s ∷ ss) = cons (str s) (texts ss)

abbrev digest_of : ContextBlock → String
digest_of b = elim b.reference [ none ↦ b.digest | some r ↦ r.digest ]

abbrev source_of : ContextBlock → String
source_of b = elim b.reference [ none ↦ b.source | some r ↦ r.source ]

abbrev revision_of : ContextBlock → Json
revision_of b = elim b.reference [ none ↦ null | some r ↦ or_null str r.revision ]

abbrev manifest_entry : ContextBlock → Json
manifest_entry b = obj (
    field "id" (str b.id) (
      field "digest" (str (digest_of b)) (
        field "source" (str (source_of b)) (
          field "revision" (revision_of b) (
            field "dependencies" (arr (texts b.dependencies))
              (field "retention" (str (retention_value b.retention)) end))))))

abbrev manifest_entries : List ContextBlock → Items
manifest_entries [] = nil
manifest_entries (b ∷ bs) = cons (manifest_entry b) (manifest_entries bs)

unfoldable pub evidence_manifest_dict : CanonicalRequest → Json
evidence_manifest_dict r = obj (
    field "schema_version" (str "1") (
      field "request_id" (or_null str r.request_id)
        (field "evidence" (arr (manifest_entries (r.blocks ++ r.tools))) end)))

-- Two blocks agree on what a model can read.
abbrev pub SameContent : ContextBlock → ContextBlock → Type 0
SameContent a b = (a.id ≡ b.id) × (a.kind ≡ b.kind) × (a.content ≡ b.content)

-- Pairwise agreement of two lists of blocks.
abbrev pub SameContents : List ContextBlock → List ContextBlock → Type 0
SameContents [] [] = Unit
SameContents [] (b ∷ bs) = ⊥
SameContents (a ∷ as') [] = ⊥
SameContents (a ∷ as') (b ∷ bs) = SameContent a b × SameContents as' bs

publics-SameContents : (xs ys : List ContextBlock) → SameContents xs ys → publics xs ≡ publics ys
publics-SameContents [] [] h = refl
publics-SameContents [] (b ∷ bs) h = absurd h
publics-SameContents (a ∷ r) [] h = absurd h
publics-SameContents (a ∷ r) (b ∷ bs) h = ground (arith, publics-SameContents r bs h.1)

-- Requests that agree on the configuration, and on the identifier, the kind and the content of each
-- block and tool, have the same model-bound text: sources, priorities, metadata, references, token
-- annotations, digests, retentions, cache, pass-through and request identifier never reach it.
pub model_bound_json-SameContents :
    (w : World) (r s : CanonicalRequest)
    → r.model ≡ s.model
    → SameContents r.blocks s.blocks
    → SameContents r.tools s.tools
    → model_bound_json w r ≡ model_bound_json w s
unfolding model_bound_json model_bound_dict
model_bound_json-SameContents w r s m b t =
    ground (arith, publics-SameContents r.blocks s.blocks b, publics-SameContents r.tools s.tools t)
