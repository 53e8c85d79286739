-- ===== src/Model/Codec/RoundTrip.antt =====
-- `from_dict` reads back what `to_dict` writes.
pub mod Sorted
use llmcut.Prelude.{String, Option, none, some, List, [], ◌∷◌, All, ◌≡◌, refl, arith, eq_iff}
use llmcut.Result.{ok}
use llmcut.World.{World}
use llmcut.Model.{
  kind_of-kind_value, retention_of-retention_value, quality_of-quality_value, TokenCount,
  EvidenceReference, ContextBlock, post_init, digest_bytes, IsDigested, ModelConfiguration,
  CanonicalRequest,
}
use llmcut.Model.Codec.{
  strings, as_texts, token_dict, token_from_dict, reference_dict, reference_from_dict, optional,
  if_truthy, block_dict, block_from_dict, block_dicts, blocks_from_dict, model_dict,
  model_from_dict, to_dict, from_dict,
}

as_texts-strings : (ss : List String) → as_texts (strings ss) ≡ ok ss
unfolding as_texts
as_texts-strings [] = refl
as_texts-strings (s ∷ ss) = rw (as_texts-strings ss) refl

token_read : (t : TokenCount) → token_from_dict (token_dict t) ≡ ok t
unfolding token_from_dict token_dict
token_read t = rw (quality_of-quality_value t.quality) refl

tokens_read :
    (t : Option TokenCount) → if_truthy token_from_dict (some (optional token_dict t)) ≡ ok t
tokens_read none = refl
tokens_read (some t) = unfold token_dict in rw (token_read t) refl

reference_read : (r : EvidenceReference) → reference_from_dict (reference_dict r) ≡ ok r
unfolding reference_from_dict reference_dict
reference_read r = ground arith

post_init_read : (w : World) (b : ContextBlock) → IsDigested w b → post_init w b ≡ ok b
unfolding post_init digest_bytes
post_init_read w b h = ground (arith, eq_iff b.digest (digest_bytes w b.content))

references_read :
    (r : Option EvidenceReference)
    → if_truthy reference_from_dict (some (optional reference_dict r)) ≡ ok r
references_read none = refl
references_read (some r) = unfold reference_dict in rw (reference_read r) refl

block_read :
    (w : World) (b : ContextBlock) → IsDigested w b → block_from_dict w (block_dict b) ≡ ok b
unfolding block_from_dict block_dict
block_read w b h =
    rw
      (
        kind_of-kind_value b.kind,
        retention_of-retention_value b.retention,
        references_read b.reference,
        tokens_read b.tokens,
        as_texts-strings b.dependencies,
      )
      (post_init_read w b h)

blocks_read :
    (w : World) (bs : List ContextBlock)
    → All (IsDigested w) bs
    → blocks_from_dict w (block_dicts bs) ≡ ok bs
unfolding blocks_from_dict block_dicts
blocks_read w [] h = refl
blocks_read w (b ∷ bs) h = rw (block_read w b h.0, blocks_read w bs h.1) refl

model_read : (m : ModelConfiguration) → model_from_dict (model_dict m) ≡ ok m
unfolding model_from_dict model_dict
model_read m = ground arith

-- Reading back a request that was written gives the request, if each block carries the digest that
-- `__post_init__` computes.
pub from_dict-to_dict :
    (w : World) (r : CanonicalRequest)
    → All (IsDigested w) r.blocks
    → All (IsDigested w) r.tools
    → from_dict w (to_dict r) ≡ ok r
unfolding from_dict to_dict
from_dict-to_dict w r hb ht =
    rw (blocks_read w r.blocks hb, blocks_read w r.tools ht, model_read r.model) (ground arith)
