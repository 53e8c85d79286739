-- ===== src/Model/Codec/RoundTrip/Sorted.antt =====
-- `CanonicalRequest.from_dict` of src/llmcut/model.py on the JSON of a request as it is read back, with the
-- keys of its dictionaries sorted.
use llmcut.Prelude.{String, Option, none, some, List, [], ◌∷◌, map, All, ◌≡◌, refl, arith}
use llmcut.Result.{ok}
use llmcut.Json.{str}
use llmcut.Json.Sorted.{sort_keys, sort_items, sort_fields}
use llmcut.World.{World}
use llmcut.Model.{
  kind_of-kind_value, retention_of-retention_value, quality_of-quality_value, TokenCount,
  EvidenceReference, ContextBlock, IsDigested, ModelConfiguration, CanonicalRequest,
}
use llmcut.Model.Codec.{
  strings, token_dict, token_from_dict, reference_dict, reference_from_dict, optional, if_truthy,
  block_dict, block_from_dict, block_dicts, blocks_from_dict, model_dict, model_from_dict, to_dict,
  from_dict,
}
use llmcut.Model.Codec.RoundTrip.{as_texts-strings, post_init_read}

-- a block whose metadata has its keys sorted
abbrev pub sort_block : ContextBlock → ContextBlock
sort_block b = record b { metadata = sort_fields b.metadata }

-- a request whose free dictionaries have their keys sorted
abbrev pub sort_request : CanonicalRequest → CanonicalRequest
sort_request r = record r {
  blocks = map sort_block r.blocks;
  tools = map sort_block r.tools;
  model = record r.model {
    parameters = sort_fields r.model.parameters;
    reasoning = sort_fields r.model.reasoning;
  };
  cache = sort_fields r.cache;
  passthrough = sort_fields r.passthrough;
}

strings_sorted : (ss : List String) → sort_items (strings ss) ≡ strings ss
strings_sorted [] = refl
strings_sorted (s ∷ ss) = rw (strings_sorted ss) refl

text_sorted : (o : Option String) → sort_keys (optional str o) ≡ optional str o
text_sorted none = refl
text_sorted (some s) = refl

token_read_sorted : (t : TokenCount) → token_from_dict (sort_keys (token_dict t)) ≡ ok t
unfolding token_from_dict token_dict
token_read_sorted t = rw (quality_of-quality_value t.quality) refl

tokens_read_sorted :
    (t : Option TokenCount)
    → if_truthy token_from_dict (some (sort_keys (optional token_dict t))) ≡ ok t
tokens_read_sorted none = refl
tokens_read_sorted (some t) = unfold token_dict in rw (token_read_sorted t) refl

reference_read_sorted :
    (r : EvidenceReference) → reference_from_dict (sort_keys (reference_dict r)) ≡ ok r
unfolding reference_from_dict reference_dict
reference_read_sorted r = ground arith

references_read_sorted :
    (r : Option EvidenceReference)
    → if_truthy reference_from_dict (some (sort_keys (optional reference_dict r))) ≡ ok r
references_read_sorted none = refl
references_read_sorted (some r) = unfold reference_dict in rw (reference_read_sorted r) refl

block_read_sorted :
    (w : World) (b : ContextBlock)
    → IsDigested w b
    → block_from_dict w (sort_keys (block_dict b)) ≡ ok (sort_block b)
unfolding block_from_dict block_dict
block_read_sorted w b h =
    rw
      (
        kind_of-kind_value b.kind,
        retention_of-retention_value b.retention,
        references_read_sorted b.reference,
        tokens_read_sorted b.tokens,
        strings_sorted b.dependencies,
        as_texts-strings b.dependencies,
      )
      (post_init_read w (sort_block b) h)

blocks_read_sorted :
    (w : World) (bs : List ContextBlock)
    → All (IsDigested w) bs
    → blocks_from_dict w (sort_items (block_dicts bs)) ≡ ok (map sort_block bs)
unfolding blocks_from_dict block_dicts
blocks_read_sorted w [] h = refl
blocks_read_sorted w (b ∷ bs) h = rw (block_read_sorted w b h.0, blocks_read_sorted w bs h.1) refl

model_read_sorted :
    (m : ModelConfiguration)
    → model_from_dict (sort_keys (model_dict m))
      ≡ ok (record m { parameters = sort_fields m.parameters; reasoning = sort_fields m.reasoning })
unfolding model_from_dict model_dict
model_read_sorted m = ground arith

-- Reading a request's dictionary with its keys sorted gives the request, its free dictionaries with
-- their keys sorted.
pub from_dict-sort_keys :
    (w : World) (r : CanonicalRequest)
    → All (IsDigested w) r.blocks
    → All (IsDigested w) r.tools
    → from_dict w (sort_keys (to_dict r)) ≡ ok (sort_request r)
unfolding from_dict to_dict
from_dict-sort_keys w r hb ht =
    rw
      (blocks_read_sorted w r.blocks hb, blocks_read_sorted w r.tools ht, model_read_sorted r.model)
      (ground arith)
