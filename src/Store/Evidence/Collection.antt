-- ===== src/Store/Evidence/Collection.antt =====
-- What garbage collection keeps, and when `put` refuses.
use llmcut.Prelude.{
  ℕ, String, true, Option, List, ◌≡◌, ◌≢◌, refl, arith, eq_iff, Option-cases, inl, inr, ◌+◌, ◌≤◌,
  length, not, Bool-cases, ◌⊎◌, ◌↔◌, In, In-keep_if, keep_if_complement,
}
use llmcut.Result.{Error, ok, err}
use llmcut.Json.{Fields}
use llmcut.World.{World}
use llmcut.Model.{digest_bytes}
use llmcut.Store.Database.{
  Row, Reference, select_content, is_referenced, surviving, expired, is_expired,
}
use llmcut.Store.Evidence.{EvidenceStore, persisted, write, put, fetch, get, collect}
use llmcut.Store.Evidence.Lookups.{select_content-surviving, intact_content}
use llmcut.Store.Evidence.Integrity.{IsSound}

-- A collection deletes no referenced evidence: `get` of a referenced digest has the same result
-- before and after it, and the references stay.
pub get-collect_referenced :
    (w : World) (s : EvidenceStore) (t : ℕ) (digest : String)
    → is_referenced digest s.references ≡ true
    → ((get w digest (collect t s).1).0 ≡ (get w digest s).0)
      × ((collect t s).1.references ≡ s.references)
unfolding get fetch collect
get-collect_referenced w s t digest h = (
  rw (select_content-surviving digest t s.references s.evidence h, fetch)
      (elim (Option-cases (select_content digest s.evidence)) [
        | inl e ↦ rw (e, fetch) refl
        | inr (c, e) ↦ rw (e, fetch) refl
      ]),
  refl,
)

unexpired :
    (t : ℕ) (refs : List Reference) (r : Row)
    → not (is_expired t refs r) ≡ true
      ↔ (is_referenced r.digest refs ≡ true) ⊎ (t ≤ r.last_accessed)
unexpired t refs r = (
  λ h. elim (Bool-cases (is_referenced r.digest refs)) [
    | inl e ↦ inl e
    | inr e ↦ inr (ground (arith, h, e))
  ],
  λ h. elim h [ inl e ↦ ground (arith, e) | inr e ↦ ground (arith, e) ],
)

-- `collect` keeps exactly the rows that are referenced or were read at the limit or later: a row is there
-- after it just where it was there before and is such a row. The number that it returns and the rows that
-- are left are together as many as there were, and the references stay.
pub collect_exact :
    (s : EvidenceStore) (t : ℕ)
    → ((r : Row)
        → In r (collect t s).1.evidence ↔ (
            In r s.evidence
            × ((is_referenced r.digest s.references ≡ true) ⊎ (t ≤ r.last_accessed))))
      × ((n : ℕ) × ((collect t s).0 ≡ ok n)
          × (n + length (collect t s).1.evidence ≡ length s.evidence))
      × ((collect t s).1.references ≡ s.references)
unfolding collect surviving expired
collect_exact s t = (
  λ r.
      let (to, from) = In-keep_if (λ x. not (is_expired t s.references x)) r s.evidence in
      let (read, back) = unexpired t s.references r in
      (λ h. let (i, p) = to h in (i, read p), λ h. from (h.0, back h.1)),
  (_, refl, keep_if_complement (is_expired t s.references) s.evidence),
  refl,
)

-- In a sound store `put` raises only on a collision of the digest: another content, already
-- stored, has the digest of the content that is refused, and the rows and references are as before.
pub put_refusal :
    (w : World) (s : EvidenceStore) (content source : String) (revision : Option String)
    (metadata : Fields) (e : Error)
    → IsSound w s
    → (put w content source revision metadata s).0 ≡ err e
    → (old : String) × (old ≢ persisted w s.persist_content content)
      × (digest_bytes w old ≡ digest_bytes w (persisted w s.persist_content content))
      × ((put w content source revision metadata s).1.evidence ≡ s.evidence)
      × ((put w content source revision metadata s).1.references ≡ s.references)
unfolding put write
put_refusal w s content source revision metadata e h p =
    let raw = persisted w s.persist_content content in
    elim (Option-cases (select_content (digest_bytes w raw) s.evidence)) [
      | inl absent ↦ ground arith
      | inr (old, found) ↦ (
        old,
        ground (arith, eq_iff old raw),
        intact_content w (digest_bytes w raw) old s.evidence h.intact found,
        ground arith,
        ground arith,
      )
    ]
