-- ===== src/Core/Dedupe/Laws.antt =====
-- Deduplication loses no content, keeps the order, and has nothing left to do on its result.
use llmcut.Prelude.{
  Bool, true, false, none, some, List, [], ◌∷◌, ◌++◌, ◌+◌, ◌&&◌, ◌||◌, ◌≟◌, any, All, All-map,
  length, ◌≡◌, refl, arith, eq_refl, subst, Option-cases, Bool-cases, inl, inr,
}
use llmcut.Model.{BlockKind, ContextBlock, kind_eq, kind_value}
use llmcut.Core.Dedupe.{
  Duplicate, same_key, canonical_of, keeping, removing, is_unsafe, dedupe_from, deduplicate,
}

dedupe_from_idem :
    (seen bs : List ContextBlock)
    → dedupe_from seen (dedupe_from seen bs).0 ≡ ((dedupe_from seen bs).0, [])
unfolding dedupe_from
dedupe_from_idem seen [] = refl
dedupe_from_idem seen (b ∷ bs) =
    ground (arith, dedupe_from_idem seen bs, dedupe_from_idem (seen ++ b ∷ []) bs)

-- Deduplication of what it kept keeps all of it, in its order, and removes nothing.
deduplicate_idem :
    (bs : List ContextBlock) → deduplicate (deduplicate bs).0 ≡ ((deduplicate bs).0, [])
unfolding deduplicate
deduplicate_idem bs = dedupe_from_idem [] bs

dedupe_from_count :
    (seen bs : List ContextBlock)
    → length (dedupe_from seen bs).0 + length (dedupe_from seen bs).1 ≡ length bs
unfolding dedupe_from
dedupe_from_count seen [] = omega arith
dedupe_from_count seen (b ∷ bs) =
    ground (arith, dedupe_from_count seen bs, dedupe_from_count (seen ++ b ∷ []) bs)

-- a block with the kind and the digest of `b` is among the blocks
abbrev pub has_key : ContextBlock → List ContextBlock → Bool
has_key b = any (same_key b)

kind_eq_refl : (k : BlockKind) → kind_eq k k ≡ true
unfolding kind_eq
kind_eq_refl k = eq_refl (kind_value k)

same_key_refl : (b : ContextBlock) → same_key b b ≡ true
same_key_refl b = ground (arith, kind_eq_refl b.kind, eq_refl b.digest)

has_key-append :
    (b : ContextBlock) (xs ys : List ContextBlock)
    → has_key b (xs ++ ys) ≡ (has_key b xs || has_key b ys)
has_key-append b [] ys = refl
has_key-append b (x ∷ xs) ys = ground (arith, has_key-append b xs ys)

canonical_of-has_key :
    (b c : ContextBlock) (seen : List ContextBlock)
    → canonical_of b seen ≡ some c
    → has_key b seen ≡ true
unfolding canonical_of
canonical_of-has_key b c [] h = cc
canonical_of-has_key b c (x ∷ xs) h = ground (arith, canonical_of-has_key b c xs)

-- each block has its key among the canonical ones or those that are kept
abbrev Covered : List ContextBlock → List ContextBlock → List ContextBlock → Type 0
Covered seen kept = All (λ b. (has_key b seen || has_key b kept) ≡ true)

Covered-cons :
    (seen kept : List ContextBlock) (b : ContextBlock) (bs : List ContextBlock)
    → Covered seen kept bs
    → Covered seen (b ∷ kept) bs
Covered-cons seen kept b bs = All-map (λ c h. ground arith) bs

Covered-snoc :
    (seen kept : List ContextBlock) (b : ContextBlock) (bs : List ContextBlock)
    → Covered (seen ++ b ∷ []) kept bs
    → Covered seen (b ∷ kept) bs
Covered-snoc seen kept b bs = All-map (λ c h. ground (arith, has_key-append c seen (b ∷ []))) bs

module _ (seen : List ContextBlock) (b : ContextBlock) (bs : List ContextBlock) where
  unsafe_step : is_unsafe b ≡ true → keeping b (dedupe_from seen bs) ≡ dedupe_from seen (b ∷ bs)
  unfolding dedupe_from
  unsafe_step e = ground arith

  fresh_step :
      is_unsafe b ≡ false
      → canonical_of b seen ≡ none
      → keeping b (dedupe_from (seen ++ b ∷ []) bs) ≡ dedupe_from seen (b ∷ bs)
  unfolding dedupe_from
  fresh_step e f = ground arith

  known_step :
      (c : ContextBlock)
      → is_unsafe b ≡ false
      → canonical_of b seen ≡ some c
      → removing
          (record { removed_id = b.id; retained_id = c.id; digest = b.digest })
          (dedupe_from seen bs)
        ≡ dedupe_from seen (b ∷ bs)
  unfolding dedupe_from
  known_step c e f = ground arith

-- A property of the result, by the three ways in which a block is treated.
pub dedupe_induction :
    (P : List ContextBlock → List ContextBlock → List ContextBlock × List Duplicate → Type 0)
    → ((seen : List ContextBlock) → P seen [] ([], []))
    → ((seen : List ContextBlock) (b : ContextBlock) (bs : List ContextBlock)
          (r : List ContextBlock × List Duplicate)
        → is_unsafe b ≡ true
        → P seen bs r
        → P seen (b ∷ bs) (keeping b r))
    → ((seen : List ContextBlock) (b : ContextBlock) (bs : List ContextBlock)
          (r : List ContextBlock × List Duplicate)
        → is_unsafe b ≡ false
        → canonical_of b seen ≡ none
        → P (seen ++ b ∷ []) bs r
        → P seen (b ∷ bs) (keeping b r))
    → ((seen : List ContextBlock) (b c : ContextBlock) (bs : List ContextBlock)
          (r : List ContextBlock × List Duplicate)
        → is_unsafe b ≡ false
        → canonical_of b seen ≡ some c
        → P seen bs r
        → P seen
            (b ∷ bs)
            (removing (record { removed_id = b.id; retained_id = c.id; digest = b.digest }) r))
    → (seen bs : List ContextBlock) → P seen bs (dedupe_from seen bs)
dedupe_induction P base u f k seen [] = unfold dedupe_from in base seen
dedupe_induction P base u f k seen (b ∷ bs) = elim (Bool-cases (is_unsafe b)) [
  | inl e ↦
      subst (P seen (b ∷ bs)) (unsafe_step seen b bs e)
        (u seen b bs _ e (dedupe_induction P base u f k seen bs))
  | inr e ↦ elim (Option-cases (canonical_of b seen)) [
    | inl g ↦
        subst (P seen (b ∷ bs)) (fresh_step seen b bs e g)
          (f seen b bs _ e g (dedupe_induction P base u f k (seen ++ b ∷ []) bs))
    | inr (c, g) ↦
        subst (P seen (b ∷ bs)) (known_step seen b bs c e g)
          (k seen b c bs _ e g (dedupe_induction P base u f k seen bs))
  ]
]

dedupe_from-Covered : (seen bs : List ContextBlock) → Covered seen (dedupe_from seen bs).0 bs
dedupe_from-Covered =
    dedupe_induction (λ seen bs r. Covered seen r.0 bs) (λ seen. tt)
      (λ seen b bs r e h. (ground (arith, same_key_refl b), Covered-cons seen r.0 b bs h))
      (λ seen b bs r e g h. (ground (arith, same_key_refl b), Covered-snoc seen r.0 b bs h))
      (λ seen b c bs r e g h. (ground (arith, canonical_of-has_key b c seen g), h))

-- a duplicate names a canonical or kept block that has its digest
abbrev pub names : List ContextBlock → Duplicate → Bool
names bs d = any (λ (b : ContextBlock). (d.retained_id ≟ b.id) && (d.digest ≟ b.digest)) bs

abbrev Named : List ContextBlock → List ContextBlock → List Duplicate → Type 0
Named seen kept = All (λ d. (names seen d || names kept d) ≡ true)

names-append :
    (d : Duplicate) (xs ys : List ContextBlock) → names (xs ++ ys) d ≡ (names xs d || names ys d)
names-append d [] ys = refl
names-append d (x ∷ xs) ys = ground (arith, names-append d xs ys)

names-canonical :
    (b c : ContextBlock) (seen : List ContextBlock)
    → canonical_of b seen ≡ some c
    → names seen (record { removed_id = b.id; retained_id = c.id; digest = b.digest }) ≡ true
unfolding canonical_of
names-canonical b c [] h = cc
names-canonical b c (x ∷ xs) h = ground (arith, names-canonical b c xs, eq_refl c.id)

dedupe_from-Named :
    (seen bs : List ContextBlock) → Named seen (dedupe_from seen bs).0 (dedupe_from seen bs).1
dedupe_from-Named =
    dedupe_induction (λ seen bs r. Named seen r.0 r.1) (λ seen. tt)
      (λ seen b bs r e h. All-map (λ d k. ground arith) r.1 h)
      (λ seen b bs r e g h. All-map (λ d k. ground (arith, names-append d seen (b ∷ []))) r.1 h)
      (λ seen b c bs r e g h. (ground (arith, names-canonical b c seen g), h))

-- Deduplication loses nothing: each block that came in has its kind and digest among those kept,
-- each removed one is recorded with a kept block of its digest, and each block is counted once.
pub deduplicate_lossless :
    (bs : List ContextBlock)
    → All (λ b. has_key b (deduplicate bs).0 ≡ true) bs
      × All (λ d. names (deduplicate bs).0 d ≡ true) (deduplicate bs).1
      × (length (deduplicate bs).0 + length (deduplicate bs).1 ≡ length bs)
unfolding deduplicate
deduplicate_lossless bs =
    (dedupe_from-Covered [] bs, dedupe_from-Named [] bs, dedupe_from_count [] bs)
