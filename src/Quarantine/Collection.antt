-- ===== src/Quarantine/Collection.antt =====
-- The document collection that src/infrastructure/ingestion/quarantine_repository.py writes to. The database is
-- not part of this repository: its operations are a parameter. `_id` is unique.
use reconciliation_ingestion.Prelude.{
  ℕ, ◌≤◌, String, Bool, true, false, Option, none, some, List, ◌≡◌, ◌≢◌, All, any, length, count_if,
}
use reconciliation_ingestion.Quarantine.Types.{IngestionQuarantineRecord}

-- The sort keys of the queries.
pub data Sort : Type 0 where
  created_at created_at_id retention_until_id : Sort

-- The Boolean of `update_one` is `modified_count == 1`; `find_one_and_update` returns the document after the
-- update; `find` gives the documents of a query, sorted, at most as many as the limit where there is one;
-- `find_first` is `find_one` with a query; `delete_one` gives `deleted_count`; `update_many` its count.
pub record Collection : Type 1 where
  pub Db : Type 0
  pub find_one : String → Db → Option IngestionQuarantineRecord
  pub update_one :
      String
      → (IngestionQuarantineRecord → Bool)
      → (IngestionQuarantineRecord → IngestionQuarantineRecord)
      → Db
      → Bool × Db
  pub find_one_and_update :
      String
      → (IngestionQuarantineRecord → Bool)
      → (IngestionQuarantineRecord → IngestionQuarantineRecord)
      → Db
      → Option IngestionQuarantineRecord × Db
  pub find :
      (IngestionQuarantineRecord → Bool) → Sort → Option ℕ → Db → List IngestionQuarantineRecord
  pub find_first : (IngestionQuarantineRecord → Bool) → Db → Option IngestionQuarantineRecord
  pub count_documents : (IngestionQuarantineRecord → Bool) → Db → ℕ
  pub insert_many : List IngestionQuarantineRecord → Db → Db
  pub update_many :
      (IngestionQuarantineRecord → Bool)
      → (IngestionQuarantineRecord → IngestionQuarantineRecord)
      → Db
      → ℕ × Db
  pub delete_one : String → Db → ℕ × Db

-- The updates of this repository never set `_id`.
abbrev pub KeepsId : (IngestionQuarantineRecord → IngestionQuarantineRecord) → Type 0
KeepsId f = (d : IngestionQuarantineRecord) → (f d).id ≡ d.id

-- What the driver documents of the update of one document, and of the deletion of one. Without a limit a query is
-- answered with every document that it matches.
pub record IsDocumentStore (c : Collection) : Type 0 where
  pub update_hit :
      (k : String) (q : IngestionQuarantineRecord → Bool)
      (f : IngestionQuarantineRecord → IngestionQuarantineRecord) (db : c.Db)
      (d : IngestionQuarantineRecord)
      → KeepsId f
      → c.find_one k db ≡ some d
      → q d ≡ true
      → c.find_one k (c.update_one k q f db).1 ≡ some (f d)
  pub update_modified :
      (k : String) (q : IngestionQuarantineRecord → Bool)
      (f : IngestionQuarantineRecord → IngestionQuarantineRecord) (db : c.Db)
      (d : IngestionQuarantineRecord)
      → KeepsId f
      → c.find_one k db ≡ some d
      → q d ≡ true
      → ¬ (f d ≡ d)
      → (c.update_one k q f db).0 ≡ true
  pub update_miss :
      (k : String) (q : IngestionQuarantineRecord → Bool)
      (f : IngestionQuarantineRecord → IngestionQuarantineRecord) (db : c.Db)
      (d : IngestionQuarantineRecord)
      → c.find_one k db ≡ some d
      → q d ≡ false
      → c.update_one k q f db ≡ (false, db)
  pub update_absent :
      (k : String) (q : IngestionQuarantineRecord → Bool)
      (f : IngestionQuarantineRecord → IngestionQuarantineRecord) (db : c.Db)
      → c.find_one k db ≡ none
      → c.update_one k q f db ≡ (false, db)
  pub claim_hit :
      (k : String) (q : IngestionQuarantineRecord → Bool)
      (f : IngestionQuarantineRecord → IngestionQuarantineRecord) (db : c.Db)
      (d : IngestionQuarantineRecord)
      → c.find_one k db ≡ some d
      → q d ≡ true
      → c.find_one_and_update k q f db ≡ (some (f d), (c.update_one k q f db).1)
  pub claim_miss :
      (k : String) (q : IngestionQuarantineRecord → Bool)
      (f : IngestionQuarantineRecord → IngestionQuarantineRecord) (db : c.Db)
      (d : IngestionQuarantineRecord)
      → c.find_one k db ≡ some d
      → q d ≡ false
      → c.find_one_and_update k q f db ≡ (none, db)
  pub claim_absent :
      (k : String) (q : IngestionQuarantineRecord → Bool)
      (f : IngestionQuarantineRecord → IngestionQuarantineRecord) (db : c.Db)
      → c.find_one k db ≡ none
      → c.find_one_and_update k q f db ≡ (none, db)
  pub find_matches :
      (q : IngestionQuarantineRecord → Bool) (s : Sort) (limit : Option ℕ) (db : c.Db)
      → All (λ d. (q d ≡ true) × (c.find_one d.id db ≡ some d)) (c.find q s limit db)
  pub find_bounded :
      (q : IngestionQuarantineRecord → Bool) (s : Sort) (limit : ℕ) (db : c.Db)
      → length (c.find q s (some limit) db) ≤ limit
  pub delete_other :
      (j k : String) (db : c.Db) → j ≢ k → c.find_one k (c.delete_one j db).1 ≡ c.find_one k db
  pub delete_same : (k : String) (db : c.Db) → c.find_one k (c.delete_one k db).1 ≡ none
  pub delete_count : (k : String) (db : c.Db) → (c.delete_one k db).0 ≤ 1
  pub find_id :
      (k : String) (db : c.Db) (d : IngestionQuarantineRecord) → c.find_one k db ≡ some d → d.id ≡ k
  pub find_complete :
      (q r : IngestionQuarantineRecord → Bool) (s : Sort) (db : c.Db)
      (d : IngestionQuarantineRecord)
      → c.find_one d.id db ≡ some d
      → q d ≡ true
      → any r (c.find q s none db) ≡ false
      → r d ≡ false
  pub find_first_match :
      (q : IngestionQuarantineRecord → Bool) (db : c.Db) (d : IngestionQuarantineRecord)
      → c.find_first q db ≡ some d
      → (q d ≡ true) × (c.find_one d.id db ≡ some d)
  pub find_first_none :
      (q : IngestionQuarantineRecord → Bool) (db : c.Db) (d : IngestionQuarantineRecord)
      → c.find_first q db ≡ none
      → c.find_one d.id db ≡ some d
      → q d ≡ false
  pub count_is :
      (db : c.Db)
      → (ds : List IngestionQuarantineRecord) × ((q : IngestionQuarantineRecord → Bool)
          → c.count_documents q db ≡ count_if q ds)
