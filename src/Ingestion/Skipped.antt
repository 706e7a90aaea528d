-- ===== src/Ingestion/Skipped.antt =====
-- A file whose record is there already: what src/pipeline/ingestion_pipeline.py answers.
use text.Mathlib.TextPositions.{eq_refl}
use reconciliation_ingestion.Prelude.{String, false, Option, none, some, str_eq, ◌≡◌, refl}
use reconciliation_ingestion.Result.{ok, Returns, ◌>>=◌}
use reconciliation_ingestion.RunState.State.{add_error}
use reconciliation_ingestion.RunState.Defs.{is_partial}
use reconciliation_ingestion.Scope.Keys.{unconfirmed}
use reconciliation_ingestion.Scope.Files.{FileScope, classify_scope}
use reconciliation_ingestion.Ingestion.Types.{
  ReconciliationFile, ProcessFileCommand, ProcessingStats, RunOutcome, IngestionResult,
}
use reconciliation_ingestion.Ingestion.Files.{
  FileCollection, is_delivery, is_failed, is_fetch_unit, find_by_file_hash, find_by_fetch_unit_key,
  create_or_get_by_file_hash,
}
use reconciliation_ingestion.Ingestion.Claim.{
  derive_fetch_unit_key, claim, candidate, duplicate_code_of,
}
use reconciliation_ingestion.Ingestion.Finalizer.{World}
use reconciliation_ingestion.Ingestion.Phases.{Ports, build_result}
use reconciliation_ingestion.Ingestion.Pipeline.{claim_source_file, duplicate_result, process_file}

abbrev no_rows : ProcessingStats
no_rows = record { total_rows = 0; success_rows = 0; failed_rows = 0; duplicate_rows = 0 }

-- The answer of a delivery that is passed over.
abbrev pub IsSkipped :
    {Db : Type 0} → RunOutcome → Db → ReconciliationFile → IngestionResult → World Db → Type 0
IsSkipped o db d x w =
    (w.db ≡ db) × (x.outcome ≡ o) × (x.file_record ≡ some d) × (x.stats ≡ no_rows)

module _ (c : FileCollection) {Config Row Container : Type 0} (p : Ports Config Row Container)
    (id : String) (command : ProcessFileCommand) where
  open c use {Db}

  -- A file that has a record which has not failed, one whose run was broken off while PROCESSING included, is answered
  -- FILE_DUPLICATE with no row read and nothing written.
  pub taken_file-IsSkipped :
      (db : Db) (file_hash : String) (key : Option String) (d : ReconciliationFile)
      → p.digests.compute_file_hash command.file_path ≡ ok file_hash
      → derive_fetch_unit_key p.digests command command.fetch_unit_metadata ≡ ok key
      → c.find_one (is_delivery command.partner file_hash) db ≡ ok (some d)
      → is_failed d.processing_status ≡ false
      → Returns (IsSkipped RunOutcome.file_duplicate db d) (process_file c p id command db)
  unfolding process_file claim_source_file claim find_by_file_hash duplicate_result build_result
      ◌>>=◌ add_error is_partial
  taken_file-IsSkipped db file_hash key d hashed derived found kept =
      rw hashed (rw derived (rw found (rw kept (refl, refl, refl, refl))))

  -- A fetched unit that comes again with other bytes, after a record was made under its key, is answered
  -- FETCH_UNIT_REPLAY with no row read and nothing written, whatever the status of that record, FAILED included.
  pub changed_unit-IsSkipped :
      (db : Db) (file_hash key : String) (scope : FileScope) (d : ReconciliationFile)
      → p.digests.compute_file_hash command.file_path ≡ ok file_hash
      → derive_fetch_unit_key p.digests command command.fetch_unit_metadata ≡ ok (some key)
      → str_eq key "" ≡ false
      → c.find_one (is_delivery command.partner file_hash) db ≡ ok none
      → classify_scope p.counts command.partner (some command.reconciliation_date) unconfirmed
        ≡ ok scope
      → c.insert_one (candidate p.digests id command file_hash (some key) scope) db ≡ (ok false, db)
      → c.find_one (is_fetch_unit key) db ≡ ok (some d)
      → d.fetch_unit_key ≡ some key
      → str_eq d.file_hash file_hash ≡ false
      → Returns (IsSkipped RunOutcome.fetch_unit_replay db d) (process_file c p id command db)
  unfolding process_file claim_source_file claim find_by_file_hash find_by_fetch_unit_key
      create_or_get_by_file_hash duplicate_code_of candidate duplicate_result build_result ◌>>=◌
      add_error is_partial
  changed_unit-IsSkipped db file_hash key scope d hashed derived named unseen classified refused
        found same changed =
      rw hashed (
        rw derived (
          rw unseen (
            rw classified (
              rw refused (
                rw unseen (
                  rw named (
                    rw found (
                      refl,
                      rw named (rw same (rw (eq_refl key) (rw changed refl))),
                      refl,
                      refl,
                    ))))))))
