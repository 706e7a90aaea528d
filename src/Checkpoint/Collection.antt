-- ===== src/Checkpoint/Collection.antt =====
-- The document collection that src/infrastructure/ingestion/checkpoint_repository.py writes to. The
-- database is not part of this repository: its operations are a parameter. The stream's identity is a
-- unique index, so an operation names one document at most.
use reconciliation_ingestion.Prelude.{Bool, true, false, Option, none, some, ◌≡◌}
use reconciliation_ingestion.Checkpoint.Types.{Stream, IngestionCheckpoint}

-- `insert_one` has no result where the driver raises `DuplicateKeyError`; the Boolean of `update_one` is
-- `modified_count == 1`; `find_one_and_update` returns the document after the update.
pub record Collection : Type 1 where
  pub Db : Type 0
  pub find_one : Stream → Db → Option IngestionCheckpoint
  pub insert_one : IngestionCheckpoint → Db → Option Db
  pub update_one :
      Stream
      → (IngestionCheckpoint → Bool)
      → (IngestionCheckpoint → IngestionCheckpoint)
      → Db
      → Bool × Db
  pub find_one_and_update :
      Stream
      → (IngestionCheckpoint → Bool)
      → (IngestionCheckpoint → IngestionCheckpoint)
      → Db
      → Option IngestionCheckpoint × Db

-- The updates of this repository never set a field of the identity.
abbrev pub KeepsStream : (IngestionCheckpoint → IngestionCheckpoint) → Type 0
KeepsStream f = (d : IngestionCheckpoint) → (f d).stream ≡ d.stream

-- What the driver documents of the two updates.
pub record IsDocumentStore (c : Collection) : Type 0 where
  pub update_hit :
      (k : Stream) (q : IngestionCheckpoint → Bool) (f : IngestionCheckpoint → IngestionCheckpoint)
      (db : c.Db) (d : IngestionCheckpoint)
      → KeepsStream f
      → c.find_one k db ≡ some d
      → q d ≡ true
      → c.find_one k (c.update_one k q f db).1 ≡ some (f d)
  pub update_modified :
      (k : Stream) (q : IngestionCheckpoint → Bool) (f : IngestionCheckpoint → IngestionCheckpoint)
      (db : c.Db) (d : IngestionCheckpoint)
      → KeepsStream f
      → c.find_one k db ≡ some d
      → q d ≡ true
      → ¬ (f d ≡ d)
      → (c.update_one k q f db).0 ≡ true
  pub update_miss :
      (k : Stream) (q : IngestionCheckpoint → Bool) (f : IngestionCheckpoint → IngestionCheckpoint)
      (db : c.Db) (d : IngestionCheckpoint)
      → c.find_one k db ≡ some d
      → q d ≡ false
      → c.update_one k q f db ≡ (false, db)
  pub claim_hit :
      (k : Stream) (q : IngestionCheckpoint → Bool) (f : IngestionCheckpoint → IngestionCheckpoint)
      (db : c.Db) (d : IngestionCheckpoint)
      → c.find_one k db ≡ some d
      → q d ≡ true
      → c.find_one_and_update k q f db ≡ (some (f d), (c.update_one k q f db).1)
  pub claim_miss :
      (k : Stream) (q : IngestionCheckpoint → Bool) (f : IngestionCheckpoint → IngestionCheckpoint)
      (db : c.Db) (d : IngestionCheckpoint)
      → c.find_one k db ≡ some d
      → q d ≡ false
      → c.find_one_and_update k q f db ≡ (none, db)
  pub claim_absent :
      (k : Stream) (q : IngestionCheckpoint → Bool) (f : IngestionCheckpoint → IngestionCheckpoint)
      (db : c.Db)
      → c.find_one k db ≡ none
      → c.find_one_and_update k q f db ≡ (none, db)
  pub update_absent :
      (k : Stream) (q : IngestionCheckpoint → Bool) (f : IngestionCheckpoint → IngestionCheckpoint)
      (db : c.Db)
      → c.find_one k db ≡ none
      → c.update_one k q f db ≡ (false, db)
