-- ===== src/Store/Evidence/Integrity.antt =====
-- The store's invariant under every operation, and what `put` promises to `get`.
use llmcut.Prelude.{
  ℕ, String, Bool, Option, none, some, List, [], ◌∷◌, ◌≡◌, refl, arith, eq_iff, eq_refl,
  Option-cases, inl, inr,
}
use llmcut.Result.{ok}
use llmcut.Json.{Fields}
use llmcut.World.{World}
use llmcut.Model.{EvidenceReference, digest_bytes}
use llmcut.Store.Database.{Row, select_content, insert_row, touch}
use llmcut.Store.Evidence.{
  EvidenceStore, persisted, new_row, write, put, fetch, get, reference, collect,
}
use llmcut.Store.Evidence.Lookups.{
  select_content-insert_row, IsIntact, IsKeyed, IsResolved, insert_row-IsIntact, touch-IsIntact,
  surviving-IsIntact, insert_row-IsKeyed, touch-IsKeyed, surviving-IsKeyed, IsResolved-mono,
  insert_reference-IsResolved, insert_row-finds, touch-finds, surviving-IsResolved, intact_content,
}

pub record IsSound (w : World) (s : EvidenceStore) : Type 0 where
  pub intact : IsIntact w s.evidence
  pub keyed : IsKeyed s.evidence
  pub resolved : IsResolved s.evidence s.references

module _ (w : World) (row : Row) (s : EvidenceStore) where
  -- A write that succeeds returns the row's digest, under which the row's content is found.
  pub select_content-write :
      (r : EvidenceReference)
      → (write row (select_content row.digest s.evidence) s).0 ≡ ok r
      → (r.digest ≡ row.digest)
        × (select_content r.digest (write row (select_content row.digest s.evidence) s).1.evidence
            ≡ some row.content)
  unfolding write
  select_content-write r h = elim (Option-cases (select_content row.digest s.evidence)) [
    | inl e ↦
        ground (arith, eq_refl row.digest, select_content-insert_row row.digest row s.evidence)
    | inr (old, e) ↦ ground (
      arith,
      eq_refl row.digest,
      eq_iff old row.content,
      select_content-insert_row row.digest row s.evidence,
    )
  ]

  write-IsSound :
      (existing : Option String)
      → row.digest ≡ digest_bytes w row.content
      → IsSound w s
      → IsSound w (write row existing s).1
  unfolding write
  write-IsSound existing d h = ground (
    arith,
    insert_row-IsIntact w row s.evidence d h.intact,
    insert_row-IsKeyed row s.evidence h.keyed,
    IsResolved-mono s.evidence (insert_row row s.evidence) s.references
        (λ k. insert_row-finds k row s.evidence) h.resolved,
  )

module _ (w : World) (s : EvidenceStore) where
  put-IsSound :
      (content source : String) (revision : Option String) (metadata : Fields)
      → IsSound w s
      → IsSound w (put w content source revision metadata s).1
  unfolding put
  put-IsSound content source revision metadata h =
      write-IsSound w (new_row w s.persist_content content source revision metadata s.clock)
        (record s { clock = w.tick s.clock })
        (select_content (digest_bytes w (persisted w s.persist_content content)) s.evidence) refl
        (record { intact = h.intact; keyed = h.keyed; resolved = h.resolved })

  fetch-IsSound :
      (digest : String) (row : Option String) → IsSound w s → IsSound w (fetch w digest row s).1
  unfolding fetch
  fetch-IsSound digest none h = h
  fetch-IsSound digest (some raw) h = record {
    intact = touch-IsIntact w s.clock digest s.evidence h.intact;
    keyed = touch-IsKeyed s.clock digest s.evidence h.keyed;
    resolved =
        IsResolved-mono s.evidence (touch s.clock digest s.evidence) s.references
          (λ k. touch-finds k s.clock digest s.evidence) h.resolved;
  }

  get-IsSound : (digest : String) → IsSound w s → IsSound w (get w digest s).1
  unfolding get
  get-IsSound digest h = fetch-IsSound digest (select_content digest s.evidence) h

  reference-IsSound : (owner digest : String) → IsSound w s → IsSound w (reference owner digest s).1
  unfolding reference
  reference-IsSound owner digest h = elim (Option-cases (select_content digest s.evidence)) [
    | inl e ↦ rw (e, reference) h
    | inr (c, e) ↦
        rw (e, reference)
          (record {
            intact = h.intact;
            keyed = h.keyed;
            resolved =
                insert_reference-IsResolved s.evidence (record { owner = owner; digest = digest })
                  s.references (ground arith) h.resolved;
          })
  ]

  collect-IsSound : (t : ℕ) → IsSound w s → IsSound w (collect t s).1
  unfolding collect
  collect-IsSound t h = record {
    intact = surviving-IsIntact w t s.references s.evidence h.intact;
    keyed = surviving-IsKeyed t s.references s.evidence h.keyed;
    resolved = surviving-IsResolved t s.evidence s.references h.resolved;
  }

  -- What `put` stored comes back: `get` of the returned digest gives the persisted form of the
  -- content, in the store that `put` left.
  pub get-put :
      (content source : String) (revision : Option String) (metadata : Fields)
      (r : EvidenceReference)
      → (put w content source revision metadata s).0 ≡ ok r
      → (get w r.digest (put w content source revision metadata s).1).0
        ≡ ok (persisted w s.persist_content content)
  unfolding put get fetch
  get-put content source revision metadata r h =
      let row = new_row w s.persist_content content source revision metadata s.clock in
      let found = select_content-write w row (record s { clock = w.tick s.clock }) r h in
      rw (found.1, found.0) (ground (arith, eq_refl row.digest))

-- A call of the store, its result forgotten.
pub data Operation : Type 0 where
  put_op : String → String → Option String → Fields → Operation
  get_op : String → Operation
  reference_op : String → String → Operation
  collect_op : ℕ → Operation
  -- time passes between two calls
  wait_op : ℕ → Operation

unfoldable pub perform : World → Operation → EvidenceStore → EvidenceStore
perform w (put_op content source revision metadata) s = (put w content source revision metadata s).1
perform w (get_op digest) s = (get w digest s).1
perform w (reference_op owner digest) s = (reference owner digest s).1
perform w (collect_op older_than) s = (collect older_than s).1
perform w (wait_op now) s = record s { clock = now }

unfoldable pub perform_all : World → List Operation → EvidenceStore → EvidenceStore
unfolding perform
perform_all w [] s = s
perform_all w (o ∷ os) s = perform_all w os (perform w o s)

abbrev pub empty_store : Bool → EvidenceStore
empty_store persist = record {
  persist_content = persist;
  evidence = [];
  references = [];
  clock = 0;
}

perform-IsSound :
    (w : World) (o : Operation) (s : EvidenceStore) → IsSound w s → IsSound w (perform w o s)
unfolding perform
perform-IsSound w (put_op c source r m) s h = put-IsSound w s c source r m h
perform-IsSound w (get_op d) s h = get-IsSound w s d h
perform-IsSound w (reference_op o d) s h = reference-IsSound w s o d h
perform-IsSound w (collect_op t) s h = collect-IsSound w s t h
perform-IsSound w (wait_op n) s h = record {
  intact = h.intact;
  keyed = h.keyed;
  resolved = h.resolved;
}

perform_all-IsSound :
    (w : World) (os : List Operation) (s : EvidenceStore)
    → IsSound w s
    → IsSound w (perform_all w os s)
unfolding perform_all
perform_all-IsSound w [] s h = h
perform_all-IsSound w (o ∷ os) s h =
    perform_all-IsSound w os (perform w o s) (perform-IsSound w o s h)

-- After any calls on a new store, failing ones included, each row's digest is that of its content,
-- no digest has two rows, and each reference names a row.
pub reachable-IsSound :
    (w : World) (persist : Bool) (os : List Operation)
    → IsSound w (perform_all w os (empty_store persist))
reachable-IsSound w persist os =
    perform_all-IsSound w os (empty_store persist)
      (record { intact = tt; keyed = tt; resolved = tt })

-- In a sound store a digest that is found passes the verification: `get` returns the content.
pub get-IsSound_found :
    (w : World) (s : EvidenceStore) (digest content : String)
    → IsSound w s
    → select_content digest s.evidence ≡ some content
    → (get w digest s).0 ≡ ok content
unfolding get fetch
get-IsSound_found w s digest content h e = rw e (
    ground (
      arith,
      eq_iff (digest_bytes w content) digest,
      intact_content w digest content s.evidence h.intact e,
    ))
