-- ===== src/Store/Evidence/Lookups.antt =====
-- What a digest finds after each statement on the table.
use llmcut.Prelude.{
  ℕ, String, true, Option, none, some, List, [], ◌∷◌, All, ◌≡◌, ◌≢◌, refl, arith, eq_iff, eq_refl,
  ◌≟◌, if◌then◌else◌,
}
use llmcut.World.{World}
use llmcut.Model.{digest_bytes}
use llmcut.Store.Database.{
  Row, Reference, select_content, insert_row, touch, is_referenced, insert_reference, surviving,
}

abbrev pub or_else : Option String → String → Option String
or_else none c = some c
or_else (some old) c = some old

pub select_content-insert_row :
    (d : String) (r : Row) (rows : List Row)
    → select_content d (insert_row r rows)
      ≡ (if d ≟ r.digest then or_else (select_content d rows) r.content else select_content d rows)
unfolding select_content insert_row
select_content-insert_row d r [] = ground arith
select_content-insert_row d r (q ∷ rows) = ground (
  arith,
  select_content-insert_row d r rows,
  eq_iff d r.digest,
  eq_iff d q.digest,
  eq_iff r.digest q.digest,
)

pub select_content-touch :
    (d : String) (now : ℕ) (e : String) (rows : List Row)
    → select_content d (touch now e rows) ≡ select_content d rows
unfolding select_content touch
select_content-touch d now e [] = refl
select_content-touch d now e (r ∷ rows) = ground (arith, select_content-touch d now e rows)

-- A referenced digest is found after a collection exactly as before it.
pub select_content-surviving :
    (d : String) (t : ℕ) (refs : List Reference) (rows : List Row)
    → is_referenced d refs ≡ true
    → select_content d (surviving t refs rows) ≡ select_content d rows
unfolding select_content surviving
select_content-surviving d t refs [] h = refl
select_content-surviving d t refs (r ∷ rows) h =
    ground (arith, select_content-surviving d t refs rows h, eq_iff d r.digest)

-- Each row's digest is that of its content.
abbrev pub IsIntact : World → List Row → Type 0
IsIntact w = All (λ (r : Row). Path String r.digest (digest_bytes w r.content))

-- No digest stands in two rows.
abbrev pub IsKeyed : List Row → Type 0
IsKeyed [] = Unit
IsKeyed (r ∷ rows) = (select_content r.digest rows ≡ none) × IsKeyed rows

-- Each reference names a row.
abbrev pub IsResolved : List Row → List Reference → Type 0
IsResolved rows = All (λ (r : Reference). select_content r.digest rows ≢ none)

pub insert_row-IsIntact :
    (w : World) (r : Row) (rows : List Row)
    → r.digest ≡ digest_bytes w r.content
    → IsIntact w rows
    → IsIntact w (insert_row r rows)
unfolding insert_row
insert_row-IsIntact w r [] h hs = (h, tt)
insert_row-IsIntact w r (q ∷ rows) h hs = ground (arith, insert_row-IsIntact w r rows h hs.1)

pub touch-IsIntact :
    (w : World) (now : ℕ) (d : String) (rows : List Row)
    → IsIntact w rows
    → IsIntact w (touch now d rows)
unfolding touch
touch-IsIntact w now d [] h = tt
touch-IsIntact w now d (r ∷ rows) h = ground (arith, touch-IsIntact w now d rows h.1)

pub surviving-IsIntact :
    (w : World) (t : ℕ) (refs : List Reference) (rows : List Row)
    → IsIntact w rows
    → IsIntact w (surviving t refs rows)
unfolding surviving
surviving-IsIntact w t refs [] h = tt
surviving-IsIntact w t refs (r ∷ rows) h = ground (arith, surviving-IsIntact w t refs rows h.1)

pub insert_row-IsKeyed : (r : Row) (rows : List Row) → IsKeyed rows → IsKeyed (insert_row r rows)
unfolding insert_row
insert_row-IsKeyed r [] h = unfold select_content in (refl, tt)
insert_row-IsKeyed r (q ∷ rows) h = ground (
  arith,
  insert_row-IsKeyed r rows h.1,
  select_content-insert_row q.digest r rows,
  eq_iff r.digest q.digest,
  eq_iff q.digest r.digest,
)

pub touch-IsKeyed :
    (now : ℕ) (d : String) (rows : List Row) → IsKeyed rows → IsKeyed (touch now d rows)
unfolding touch
touch-IsKeyed now d [] h = tt
touch-IsKeyed now d (r ∷ rows) h =
    ground (arith, touch-IsKeyed now d rows h.1, select_content-touch r.digest now d rows)

surviving-absent :
    (d : String) (t : ℕ) (refs : List Reference) (rows : List Row)
    → select_content d rows ≡ none
    → select_content d (surviving t refs rows) ≡ none
unfolding select_content surviving
surviving-absent d t refs [] h = refl
surviving-absent d t refs (r ∷ rows) h = ground (arith, surviving-absent d t refs rows)

pub surviving-IsKeyed :
    (t : ℕ) (refs : List Reference) (rows : List Row)
    → IsKeyed rows
    → IsKeyed (surviving t refs rows)
unfolding surviving
surviving-IsKeyed t refs [] h = tt
surviving-IsKeyed t refs (r ∷ rows) h =
    ground (arith, surviving-IsKeyed t refs rows h.1, surviving-absent r.digest t refs rows h.0)

pub IsResolved-mono :
    (rows rows' : List Row) (refs : List Reference)
    → ((d : String) → select_content d rows ≢ none → select_content d rows' ≢ none)
    → IsResolved rows refs
    → IsResolved rows' refs
IsResolved-mono rows rows' [] f h = tt
IsResolved-mono rows rows' (r ∷ refs) f h = (f r.digest h.0, IsResolved-mono rows rows' refs f h.1)

pub insert_reference-IsResolved :
    (rows : List Row) (r : Reference) (refs : List Reference)
    → select_content r.digest rows ≢ none
    → IsResolved rows refs
    → IsResolved rows (insert_reference r refs)
unfolding insert_reference
insert_reference-IsResolved rows r [] h hs = (h, tt)
insert_reference-IsResolved rows r (q ∷ refs) h hs =
    ground (arith, insert_reference-IsResolved rows r refs h hs.1)

pub insert_row-finds :
    (d : String) (r : Row) (rows : List Row)
    → select_content d rows ≢ none
    → select_content d (insert_row r rows) ≢ none
insert_row-finds d r rows h = ground (arith, select_content-insert_row d r rows)

pub touch-finds :
    (d : String) (now : ℕ) (e : String) (rows : List Row)
    → select_content d rows ≢ none
    → select_content d (touch now e rows) ≢ none
touch-finds d now e rows h = rw (select_content-touch d now e rows) h

-- each reference that remains names a row that remains
pub surviving-IsResolved :
    (t : ℕ) (rows : List Row) (refs : List Reference)
    → IsResolved rows refs
    → IsResolved (surviving t refs rows) refs
surviving-IsResolved t rows refs h = go refs (λ d e. e) h
  where
    go :
        (some_refs : List Reference)
        → ((d : String) → is_referenced d some_refs ≡ true → is_referenced d refs ≡ true)
        → IsResolved rows some_refs
        → IsResolved (surviving t refs rows) some_refs
    go [] f k = tt
    go (r ∷ rest) f k = (
      rw
          (select_content-surviving r.digest t refs rows
            (f r.digest (ground (arith, eq_refl r.digest))))
          k.0,
      go rest (λ d e. f d (ground arith)) k.1,
    )

-- in an intact table the content that a digest finds has that digest
pub intact_content :
    (w : World) (d c : String) (rows : List Row)
    → IsIntact w rows
    → select_content d rows ≡ some c
    → digest_bytes w c ≡ d
unfolding select_content
intact_content w d c [] h e = ground arith
intact_content w d c (r ∷ rows) h e =
    ground (arith, intact_content w d c rows h.1, eq_iff d r.digest)
