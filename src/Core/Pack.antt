-- ===== src/Core/Pack.antt =====
-- src/llmcut/core/pack.py: a request's blocks in five groups, of which the first three make the
-- stable prefix.
use Prim.Native.String.{◌++◌ as join}
use llmcut.Prelude.{
  String, Bool, true, false, List, [], ◌∷◌, ◌++◌, map, take, keep_if, ◌≡◌, refl, arith,
  append_assoc,
}
use llmcut.Json.{arr}
use llmcut.World.{World}
use llmcut.Model.{
  BlockKind, system, developer, user, tool_definition, repository, ContextBlock, CanonicalRequest,
  digest_bytes,
}
use llmcut.Model.Bound.{publics}

pub data Group : Type 0 where
  policy tools repository_group task dynamic : Group

unfoldable pub group_of : BlockKind → Group
group_of system = policy
group_of developer = policy
group_of tool_definition = tools
group_of repository = repository_group
group_of user = task
group_of _ = dynamic

abbrev group_eq : Group → Group → Bool
group_eq policy policy = true
group_eq tools tools = true
group_eq repository_group repository_group = true
group_eq task task = true
group_eq dynamic dynamic = true
group_eq _ _ = false

-- `groups[key]`
unfoldable pub members : Group → List ContextBlock → List ContextBlock
members g = keep_if (λ b. group_eq (group_of b.kind) g)

abbrev order : List Group
order = policy ∷ tools ∷ repository_group ∷ task ∷ dynamic ∷ []

abbrev pub concat : List String → String
concat [] = ""
concat (s ∷ ss) = join s (concat ss)

unfoldable pub partitions : World → CanonicalRequest → List String
unfolding members
partitions w r = map (λ g. w.dumps (arr (publics (members g (r.blocks ++ r.tools))))) order

unfoldable pub stable_prefix_digest : World → CanonicalRequest → String
unfolding partitions digest_bytes
stable_prefix_digest w r = digest_bytes w (concat (take 3 (partitions w r)))

-- the groups of the prefix
abbrev pub is_stable : BlockKind → Bool
is_stable k = elim (group_of k) [ task ↦ false | dynamic ↦ false | _ ↦ true ]

members-insert :
    (g : Group) (b : ContextBlock) (before after : List ContextBlock)
    → group_eq (group_of b.kind) g ≡ false
    → members g (before ++ b ∷ after) ≡ members g (before ++ after)
unfolding members
members-insert g b [] after h = ground arith
members-insert g b (c ∷ before) after h = ground (arith, members-insert g b before after h)

-- A block of no stable group, wherever it is put into the request's blocks, leaves the digest that
-- `stable_partition` computes of the stable blocks as it is.
pub stable_prefix_digest-insert :
    (w : World) (r : CanonicalRequest) (b : ContextBlock) (before after : List ContextBlock)
    → is_stable b.kind ≡ false
    → stable_prefix_digest w (record r { blocks = before ++ b ∷ after })
      ≡ stable_prefix_digest w (record r { blocks = before ++ after })
unfolding stable_prefix_digest
stable_prefix_digest-insert w r b before after h =
    simp
      (
        append_assoc,
        members-insert policy b before (after ++ r.tools) (ground arith),
        members-insert tools b before (after ++ r.tools) (ground arith),
        members-insert repository_group b before (after ++ r.tools) (ground arith),
      )
      refl
