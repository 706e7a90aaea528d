-- ===== src/Ingestion/Claimed.antt =====
-- The claim of src/pipeline/file_claim.py: what it answers is what the collection holds.
use reconciliation_ingestion.Prelude.{
  String, Bool, true, false, Option, none, some, ◌≡◌, refl, ap, ◌∙◌, Bool-cases, inl, inr, str_eq,
  subst, sym,
}
use reconciliation_ingestion.Result.{
  Result, ok, err, Post, Post-bind, Post-lift, proceed, ◌>>=◌, pure,
}
use reconciliation_ingestion.Scope.Files.{ScopeCounts, classify_scope}
use reconciliation_ingestion.Scope.Keys.{unconfirmed}
use reconciliation_ingestion.Ingestion.Types.{
  ReconciliationFile, FileClaimResult, ProcessFileCommand,
}
use reconciliation_ingestion.Ingestion.Files.{
  existing_or_raise, find_by_its_unit, find_existing, created_or_existing, FileCollection,
  is_delivery, is_failed, is_failed_delivery, is_fetch_unit, reclaimed_file, find_by_file_hash,
  find_by_fetch_unit_key, reclaim_failed_by_file_hash, create_or_get_by_file_hash,
}
use reconciliation_ingestion.Ingestion.Claim.{
  Digests, candidate, claim, claim_created, claim_new, claim_reclaimed, claim_existing, claim_found,
}
use reconciliation_ingestion.Ingestion.Store.{IsFileStore, KeepsId}

pub reclaimed_file-KeepsId : KeepsId reclaimed_file
unfolding reclaimed_file
reclaimed_file-KeepsId d = refl

module _ (c : FileCollection) (s : IsFileStore c) where
  open c use {Db}

  -- The document of the answer is the answer.
  abbrev pub IsStored : ReconciliationFile → Db → Type 0
  IsStored d db = s.document db d.id ≡ some d

  abbrev IsStoredPair : ReconciliationFile × Bool → Db → Type 0
  IsStoredPair x db = IsStored x.0 db

  IsStored-existing :
      (o : Option ReconciliationFile) (db : Db)
      → ((d : ReconciliationFile) → o ≡ some d → IsStored d db)
      → Post IsStoredPair (existing_or_raise c o db)
  IsStored-existing none db h = tt
  IsStored-existing (some d) db h = h d refl

  IsStored-unit :
      (key : Option String) (db : Db)
      → Post IsStoredPair ((find_by_its_unit c key >>= existing_or_raise c) db)
  unfolding ◌>>=◌ find_by_fetch_unit_key
  IsStored-unit none db = tt
  IsStored-unit (some key) db = elim (Bool-cases (str_eq key "")) [
    | inl e ↦ rw e tt
    | inr e ↦ rw e (
        Post-lift IsStoredPair (c.find_one (is_fetch_unit key) db) (existing_or_raise c) db (λ o h.
          IsStored-existing o db (λ d g. s.found_stored (is_fetch_unit key) db d (h ∙ ap ok g))))
  ]

  IsStored-find_existing :
      (doc : ReconciliationFile) (db : Db) (o : Option ReconciliationFile)
      → ((d : ReconciliationFile) → o ≡ some d → IsStored d db)
      → Post IsStoredPair (find_existing c doc o db)
  IsStored-find_existing doc db none h = IsStored-unit doc.fetch_unit_key db
  IsStored-find_existing doc db (some d) h = h d refl

  IsStored-inserted :
      (doc : ReconciliationFile) (db : Db) (x : Result Bool × Db)
      → c.insert_one doc db ≡ x
      → Post IsStoredPair (proceed x.0 (created_or_existing c doc) x.1)
  unfolding ◌>>=◌ find_by_file_hash
  IsStored-inserted doc db (err e, db') u = tt
  IsStored-inserted doc db (ok true, db') u = s.insert_stored doc db db' u
  IsStored-inserted doc db (ok false, db') u =
      Post-lift IsStoredPair (c.find_one (is_delivery doc.partner doc.file_hash) db')
        (find_existing c doc) db'
        (λ o h.
          IsStored-find_existing doc db' o
            (λ d g. s.found_stored (is_delivery doc.partner doc.file_hash) db' d (h ∙ ap ok g)))

  IsStored-create_or_get :
      (doc : ReconciliationFile) (db : Db) → Post IsStoredPair (create_or_get_by_file_hash c doc db)
  unfolding create_or_get_by_file_hash ◌>>=◌
  IsStored-create_or_get doc db = IsStored-inserted doc db (c.insert_one doc db) refl

  module _ (g : Digests) (counts : ScopeCounts String) (id : String) (command : ProcessFileCommand)
      (file_hash : String) (key : Option String) where
    abbrev IsStoredClaim : FileClaimResult → Db → Type 0
    IsStoredClaim r db = IsStored r.file_record db

    IsStored-claim_created :
        (x : ReconciliationFile × Bool) (db : Db)
        → IsStored x.0 db
        → IsStoredClaim (claim_created c g counts id command file_hash key x) db
    IsStored-claim_created (d, true) db h = h
    IsStored-claim_created (d, false) db h = h

    IsStored-claim_new :
        (db : Db) → Post IsStoredClaim (claim_new c g counts id command file_hash key db)
    IsStored-claim_new db =
        Post-lift IsStoredClaim
          (classify_scope counts command.partner (some command.reconciliation_date) unconfirmed) _
          db
          (λ scope _.
            Post-bind IsStoredPair IsStoredClaim
              (create_or_get_by_file_hash c (candidate g id command file_hash key scope))
              (λ x. pure (claim_created c g counts id command file_hash key x)) db
              (IsStored-create_or_get (candidate g id command file_hash key scope) db)
              (λ x db' h. IsStored-claim_created x db' h))

    IsStored-reclaimed :
        (d : ReconciliationFile) (db : Db) (x : Result (Option ReconciliationFile) × Db)
        → reclaim_failed_by_file_hash c command.partner file_hash db ≡ x
        → IsStored d db
        → Post IsStoredClaim (proceed x.0 (claim_reclaimed c g counts id command d) x.1)
    unfolding reclaim_failed_by_file_hash
    IsStored-reclaimed d db (err e, db') u h = tt
    IsStored-reclaimed d db (ok none, db') u h =
        subst (λ b. IsStored d b)
          (sym (
            s.found_nothing (is_failed_delivery command.partner file_hash) reclaimed_file db db' u))
          h
    IsStored-reclaimed d db (ok (some e), db') u h =
        s.found_and_updated (is_failed_delivery command.partner file_hash) reclaimed_file db db' e
          reclaimed_file-KeepsId u

    IsStored-claim_existing :
        (d : ReconciliationFile) (db : Db)
        → IsStored d db
        → Post IsStoredClaim (claim_existing c g counts id command file_hash d db)
    unfolding ◌>>=◌
    IsStored-claim_existing d db h = elim (Bool-cases (is_failed d.processing_status)) [
      | inl e ↦ rw e (
          IsStored-reclaimed d db (reclaim_failed_by_file_hash c command.partner file_hash db) refl
            h)
      | inr e ↦ rw e h
    ]

    IsStored-claim_found :
        (o : Option ReconciliationFile) (db : Db)
        → ((d : ReconciliationFile) → o ≡ some d → IsStored d db)
        → Post IsStoredClaim (claim_found c g counts id command file_hash key o db)
    IsStored-claim_found none db h = IsStored-claim_new db
    IsStored-claim_found (some d) db h = IsStored-claim_existing d db (h d refl)

    -- What a claim answers, created or not, is stored.
    pub claim-IsStored :
        (db : Db) → Post IsStoredClaim (claim c g counts id command file_hash key db)
    unfolding claim find_by_file_hash ◌>>=◌
    claim-IsStored db =
        Post-lift IsStoredClaim (c.find_one (is_delivery command.partner file_hash) db)
          (claim_found c g counts id command file_hash key) db
          (λ o h.
            IsStored-claim_found o db
              (λ d u. s.found_stored (is_delivery command.partner file_hash) db d (h ∙ ap ok u)))
