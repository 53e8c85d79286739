-- ===== src/Store/Database.antt =====
-- The tables `evidence` and `evidence_refs` of src/llmcut/store/database.py, and the statements of
-- src/llmcut/store/evidence.py on them. A table is the list of its rows in the order of insertion.
use llmcut.Prelude.{
  ℕ, String, Bool, not, ◌&&◌, Option, none, some, List, [], ◌∷◌, any, keep_if, ltb, if◌then◌else◌,
  ◌≟◌,
}
use llmcut.Json.{Fields}

pub record Row : Type 0 where
  pub digest : String
  pub content : String
  pub source : String
  pub revision : Option String
  pub created_at : ℕ
  pub last_accessed : ℕ
  pub size : ℕ
  pub metadata : Fields

pub record Reference : Type 0 where
  pub owner : String
  pub digest : String

-- `SELECT content FROM evidence WHERE digest=?`
unfoldable pub select_content : String → List Row → Option String
select_content d [] = none
select_content d (r ∷ rows) = if d ≟ r.digest then some r.content else select_content d rows

-- `INSERT OR IGNORE INTO evidence`: the digest is the primary key.
unfoldable pub insert_row : Row → List Row → List Row
insert_row r [] = r ∷ []
insert_row r (q ∷ rows) = if r.digest ≟ q.digest then q ∷ rows else q ∷ insert_row r rows

-- `UPDATE evidence SET last_accessed=? WHERE digest=?`
unfoldable pub touch : ℕ → String → List Row → List Row
touch now d [] = []
touch now d (r ∷ rows) =
    (if d ≟ r.digest then record r { last_accessed = now } else r) ∷ touch now d rows

-- `digest IN (SELECT digest FROM evidence_refs)`
abbrev pub is_referenced : String → List Reference → Bool
is_referenced d refs = any (λ (r : Reference). d ≟ r.digest) refs

-- `INSERT OR IGNORE INTO evidence_refs`, whose primary key is the pair
unfoldable pub insert_reference : Reference → List Reference → List Reference
insert_reference r [] = r ∷ []
insert_reference r (q ∷ refs) =
    if (r.owner ≟ q.owner) && (r.digest ≟ q.digest) then q ∷ refs else q ∷ insert_reference r refs

-- `last_accessed < ? AND digest NOT IN (SELECT digest FROM evidence_refs)`
abbrev pub is_expired : ℕ → List Reference → Row → Bool
is_expired older_than refs r = ltb r.last_accessed older_than && not (is_referenced r.digest refs)

-- the rows that `collect`'s DELETE affects
unfoldable pub expired : ℕ → List Reference → List Row → List Row
expired older_than refs = keep_if (is_expired older_than refs)

-- the rows that it keeps
unfoldable pub surviving : ℕ → List Reference → List Row → List Row
surviving older_than refs = keep_if (λ r. not (is_expired older_than refs r))
