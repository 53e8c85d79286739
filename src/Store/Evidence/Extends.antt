-- ===== src/Store/Evidence/Extends.antt =====
-- A store that extends another: evidence is never lost by `put`, and what was put is found.
use llmcut.Prelude.{
  String, Option, none, some, List, ◌≡◌, ◌≢◌, subst, ◌∙◌, arith, eq_iff, Option-cases, inl, inr,
}
use llmcut.Result.{ok}
use llmcut.Json.{Fields}
use llmcut.World.{World}
use llmcut.Model.{EvidenceReference, digest_bytes}
use llmcut.Store.Database.{Row, select_content, insert_row}
use llmcut.Store.Evidence.{EvidenceStore, persisted, new_row, write, put, fetch, get}
use llmcut.Store.Evidence.Lookups.{select_content-insert_row, select_content-touch}
use llmcut.Store.Evidence.Integrity.{select_content-write}

-- What a digest finds in the one store it finds in the other.
abbrev pub Extends : EvidenceStore → EvidenceStore → Type 0
Extends s t =
    (d c : String) → select_content d s.evidence ≡ some c → select_content d t.evidence ≡ some c

pub Extends-refl : (s : EvidenceStore) → Extends s s
Extends-refl s d c h = h

pub Extends-trans : (s t u : EvidenceStore) → Extends s t → Extends t u → Extends s u
Extends-trans s t u f g d c h = g d c (f d c h)

insert_row-Extends :
    (row : Row) (rows : List Row) (d c : String)
    → select_content d rows ≡ some c
    → select_content d (insert_row row rows) ≡ some c
insert_row-Extends row rows d c h = ground (arith, select_content-insert_row d row rows)

write-Extends :
    (row : Row) (existing : Option String) (s : EvidenceStore) → Extends s (write row existing s).1
unfolding write
write-Extends row existing s d c h = ground (arith, insert_row-Extends row s.evidence d c h)

module _ (w : World) (s : EvidenceStore) (content source : String) (revision : Option String)
    (metadata : Fields) where
  -- Evidence is never lost by another `put`.
  pub put-Extends : Extends s (put w content source revision metadata s).1
  unfolding put
  put-Extends =
      write-Extends (new_row w s.persist_content content source revision metadata s.clock)
        (select_content (digest_bytes w (persisted w s.persist_content content)) s.evidence)
        (record s { clock = w.tick s.clock })

  -- After a `put` that returned, its digest finds the persisted content, and is that content's.
  pub put-stored :
      (r : EvidenceReference)
      → (put w content source revision metadata s).0 ≡ ok r
      → (r.digest ≡ digest_bytes w (persisted w s.persist_content content))
        × (select_content r.digest (put w content source revision metadata s).1.evidence
            ≡ some (persisted w s.persist_content content))
  unfolding put
  put-stored r h =
      select_content-write w (new_row w s.persist_content content source revision metadata s.clock)
        (record s { clock = w.tick s.clock }) r h

-- A digest that finds a content which has it passes the verification.
pub get_found :
    (w : World) (s : EvidenceStore) (digest content : String)
    → digest ≡ digest_bytes w content
    → select_content digest s.evidence ≡ some content
    → (get w digest s).0 ≡ ok content
unfolding get fetch
get_found w s digest content h e = rw e (ground (arith, eq_iff (digest_bytes w content) digest))

-- Reading loses no evidence.
pub get-Extends : (w : World) (s : EvidenceStore) (digest : String) → Extends s (get w digest s).1
unfolding get fetch
get-Extends w s digest d c h = elim (Option-cases (select_content digest s.evidence)) [
  | inl e ↦ rw (e, fetch) h
  | inr (raw, e) ↦ rw (e, fetch) (select_content-touch d s.clock digest s.evidence ∙ h)
]

fetched :
    (w : World) (s : EvidenceStore) (digest raw text : String)
    → select_content digest s.evidence ≡ some raw
    → (fetch w digest (some raw) s).0 ≡ ok text
    → (select_content digest s.evidence ≡ some text) × (digest_bytes w text ≡ digest)
unfolding fetch
fetched w s digest raw text e h = ground (arith, eq_iff (digest_bytes w raw) digest, e, h)

missing :
    (w : World) (s : EvidenceStore) (digest text : String) → (fetch w digest none s).0 ≢ ok text
unfolding fetch
missing w s digest text h = ground (arith, h)

-- A text that `get` returns is the one that the digest finds, and its digest is that one.
pub get_returned :
    (w : World) (s : EvidenceStore) (digest text : String)
    → (get w digest s).0 ≡ ok text
    → (select_content digest s.evidence ≡ some text) × (digest_bytes w text ≡ digest)
unfolding get
get_returned w s digest text h = elim (Option-cases (select_content digest s.evidence)) [
  | inl e ↦ absurd (missing w s digest text (subst (λ o. (fetch w digest o s).0 ≡ ok text) e h))
  | inr (raw, e) ↦ fetched w s digest raw text e (subst (λ o. (fetch w digest o s).0 ≡ ok text) e h)
]
