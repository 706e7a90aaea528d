-- ===== src/Ingestion/Store.antt =====
-- What the driver of the database documents of the collection of file records, and what that gives for the
-- writes of src/infrastructure/ingestion/file_repository.py.
use reconciliation_ingestion.Prelude.{
  String, Bool, true, false, Option, none, some, ◌≡◌, refl, ◌⊎◌, inl, inr,
}
use reconciliation_ingestion.Result.{Result, ok, err, Error, Post}
use reconciliation_ingestion.Ingestion.Types.{ReconciliationFile}
use reconciliation_ingestion.Ingestion.Files.{FileCollection}
use reconciliation_ingestion.Ingestion.Finalizer.{World, on_db, attempt}

-- The updates of this repository never set `_id`.
abbrev pub KeepsId : (ReconciliationFile → ReconciliationFile) → Type 0
KeepsId f = (d : ReconciliationFile) → (f d).id ≡ d.id

-- `document` is the stored document of an `_id`. An update that is not acknowledged may have been made or not; an
-- insertion that the index refuses and an update that finds nothing change nothing.
pub record IsFileStore (c : FileCollection) : Type 0 where
  pub document : c.Db → String → Option ReconciliationFile
  pub insert_stored :
      (d : ReconciliationFile) (db db' : c.Db)
      → c.insert_one d db ≡ (ok true, db')
      → document db' d.id ≡ some d
  pub insert_refused :
      (d : ReconciliationFile) (db db' : c.Db) → c.insert_one d db ≡ (ok false, db') → db' ≡ db
  pub found_stored :
      (q : ReconciliationFile → Bool) (db : c.Db) (d : ReconciliationFile)
      → c.find_one q db ≡ ok (some d)
      → document db d.id ≡ some d
  pub found_and_updated :
      (q : ReconciliationFile → Bool) (f : ReconciliationFile → ReconciliationFile) (db db' : c.Db)
      (d : ReconciliationFile)
      → KeepsId f
      → c.find_one_and_update q f db ≡ (ok (some d), db')
      → document db' d.id ≡ some d
  pub found_nothing :
      (q : ReconciliationFile → Bool) (f : ReconciliationFile → ReconciliationFile) (db db' : c.Db)
      → c.find_one_and_update q f db ≡ (ok none, db')
      → db' ≡ db
  pub update_written :
      (k : String) (f : ReconciliationFile → ReconciliationFile) (db db' : c.Db) (b : Bool)
      (d : ReconciliationFile)
      → KeepsId f
      → c.update_one k f db ≡ (ok b, db')
      → document db k ≡ some d
      → document db' k ≡ some (f d)
  pub update_unsure :
      (k : String) (f : ReconciliationFile → ReconciliationFile) (db db' : c.Db) (e : Error)
      (d : ReconciliationFile)
      → KeepsId f
      → c.update_one k f db ≡ (err e, db')
      → document db k ≡ some d
      → (document db' k ≡ some d) ⊎ (document db' k ≡ some (f d))

module _ (c : FileCollection) (s : IsFileStore c) where
  open c use {Db}

  -- The run's own record is `d`, and the document of `k` is `e`.
  pub record At (k : String) (d e : ReconciliationFile) (w : World Db) : Type 0 where
    pub own : w.file_record ≡ some d
    pub stored : s.document w.db k ≡ some e

  module _ (k : String) (f : ReconciliationFile → ReconciliationFile) (keeps : KeepsId f) where
    update_answer :
        (w : World Db) (d e : ReconciliationFile) (x : Result Bool × Db)
        → c.update_one k f w.db ≡ x
        → At k d e w
        → Post (λ _ t. At k d (f e) t × (t.state ≡ w.state)) (x.0, record w { db = x.1 })
    update_answer w d e (ok b, db') u a =
        (record { own = a.own; stored = s.update_written k f w.db db' b e keeps u a.stored }, refl)
    update_answer w d e (err x, db') u a = tt

    pub At-update :
        (w : World Db) (d e : ReconciliationFile)
        → At k d e w
        → Post (λ _ t. At k d (f e) t × (t.state ≡ w.state)) (on_db (c.update_one k f) w)
    At-update w d e a = update_answer w d e (c.update_one k f w.db) refl a

    unsure :
        (w : World Db) (d e : ReconciliationFile) (db' : Db)
        → At k d e w
        → (s.document db' k ≡ some e) ⊎ (s.document db' k ≡ some (f e))
        → At k d e (record w { db = db' }) ⊎ At k d (f e) (record w { db = db' })
    unsure w d e db' a (inl p) = inl (record { own = a.own; stored = p })
    unsure w d e db' a (inr p) = inr (record { own = a.own; stored = p })

    attempt_answer :
        (w : World Db) (d e : ReconciliationFile) (x : Result Bool × Db)
        → c.update_one k f w.db ≡ x
        → At k d e w
        → (At k d e (record w { db = x.1 }) ⊎ At k d (f e) (record w { db = x.1 }))
    attempt_answer w d e (ok b, db') u a =
        inr (record { own = a.own; stored = s.update_written k f w.db db' b e keeps u a.stored })
    attempt_answer w d e (err x, db') u a =
        unsure w d e db' a (s.update_unsure k f w.db db' x e keeps u a.stored)

    pub At-attempt :
        (w : World Db) (d e : ReconciliationFile)
        → At k d e w
        → let t = (attempt (on_db (c.update_one k f)) w).1 in
          (At k d e t ⊎ At k d (f e) t) × (t.state ≡ w.state)
    At-attempt w d e a = (attempt_answer w d e (c.update_one k f w.db) refl a, refl)
