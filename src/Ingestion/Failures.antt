-- ===== src/Ingestion/Failures.antt =====
-- What the results of src/pipeline/ingestion_pipeline.py say of the database, failures included.
use reconciliation_ingestion.Prelude.{Option, none, some, String, ◌≡◌, ◌⊎◌, inl, inr}
use reconciliation_ingestion.Result.{Returns, Returns-bind, ◌>>=◌}
use reconciliation_ingestion.RunState.State.{IngestionRunState}
use reconciliation_ingestion.RunState.Defs.{is_partial}
use reconciliation_ingestion.Ingestion.Types.{
  ProcessingStatus, ReconciliationFile, ProcessFileCommand, RunOutcome, IngestionResult,
}
use reconciliation_ingestion.Ingestion.Files.{FileCollection}
use reconciliation_ingestion.Ingestion.Finalizer.{World, fail, fail_record}
use reconciliation_ingestion.Ingestion.Phases.{Ports, build_result}
use reconciliation_ingestion.Ingestion.Pipeline.{fail_run, process_file, result}
use reconciliation_ingestion.Ingestion.Store.{IsFileStore}
use reconciliation_ingestion.Ingestion.Finished.{Finished}
use reconciliation_ingestion.Ingestion.Stored.{Ends, Ends-finished, Settled, by_failed}
use reconciliation_ingestion.Ingestion.Failing.{IsAcknowledged, fail-Finished, fail-none}
use reconciliation_ingestion.Ingestion.Exits.{MayHold}
use reconciliation_ingestion.Ingestion.Settling.{process_file-Settled}

module _ (c : FileCollection) (s : IsFileStore c) where
  open c use {Db}

  abbrev pub Nothing : IngestionResult → World Db → Type 0
  Nothing x w = Unit {0}

  -- A failed result has no record, or the record and its document show FAILED and the counts of the result.
  abbrev pub FailureShown : IngestionResult → World Db → Type 0
  FailureShown x w = (x.file_record ≡ none) ⊎ Ends c s ProcessingStatus.failed x w

  failed_result :
      (F : IngestionResult → World Db → Type 0) (w : World Db)
      → F (build_result RunOutcome.failed none w.file_record w.state) w
      → Settled c s F (build_result RunOutcome.failed none w.file_record w.state) w
  unfolding build_result
  failed_result F w h = by_failed c s F (is_partial w.state) _ w h

  module _ {Config Row Container : Type 0} (p : Ports Config Row Container) where
    -- `fail` raises nothing.
    fail_record-Returns :
        (o : Option ReconciliationFile) (r : IngestionRunState) (w : World Db)
        → Returns (λ _ _. Unit {0}) (fail_record c p.summary_of o r w)
    unfolding ◌>>=◌
    fail_record-Returns none r w = tt
    fail_record-Returns (some d) r w = tt

    fail-Returns : (w : World Db) → Returns (λ _ _. Unit {0}) (fail c p.summary_of w)
    unfolding fail
    fail-Returns w =
        Returns-bind (λ _ _. Unit {0}) (λ _ _. Unit {0})
          (fail_record c p.summary_of w.file_record w.state) _ w
          (fail_record-Returns w.file_record w.state w) (λ _ t _. tt)

    fail_run-Settled :
        (w : World Db) → MayHold c s w → Returns (Settled c s Nothing) (fail_run c p w)
    fail_run-Settled w h =
        Returns-bind (λ _ _. Unit {0}) (Settled c s Nothing) (fail c p.summary_of)
          (λ _. result c p RunOutcome.failed none) w (fail-Returns w)
          (λ _ t _. failed_result Nothing t tt)

    fail_run-Shown :
        IsAcknowledged c
        → (w : World Db) → MayHold c s w
        → Returns (Settled c s FailureShown) (fail_run c p w)
    unfolding build_result
    fail_run-Shown sure w (inl n) =
        Returns-bind (λ _ t. t.file_record ≡ none) (Settled c s FailureShown) (fail c p.summary_of)
          (λ _. result c p RunOutcome.failed none) w (fail-none c p.summary_of w n)
          (λ _ t m. failed_result FailureShown t (inl m))
    fail_run-Shown sure w (inr h) =
        Returns-bind (λ _ t. Finished c s h.own_record.id ProcessingStatus.failed t)
          (Settled c s FailureShown) (fail c p.summary_of) (λ _. result c p RunOutcome.failed none)
          w (fail-Finished c s sure p.summary_of w h.own_record h.document h.at)
          (λ _ t f.
            failed_result FailureShown t (
              inr
                (Ends-finished c s RunOutcome.failed h.own_record.id ProcessingStatus.failed t f)))

    module _ (id : String) (command : ProcessFileCommand) where
      -- Whatever raises on the way, the pipeline returns a result, and the result is what the database holds: INGESTED
      -- and PARTIAL mean a stored record with that status and the counts of the result, WAITING_REVIEW a stored
      -- record that is PENDING, and a duplicate the stored record as it is; FAILED says nothing.
      pub result_is_stored :
          (db : Db) → Returns (Settled c s Nothing) (process_file c p id command db)
      result_is_stored = process_file-Settled c s p Nothing fail_run-Settled id command

      -- Where the updates of the database are acknowledged, FAILED too is what the database holds: on whatever error, the
      -- result has no record, or its record is stored as FAILED with the counts of the result.
      pub failure_is_stored :
          IsAcknowledged c
          → (db : Db) → Returns (Settled c s FailureShown) (process_file c p id command db)
      failure_is_stored sure =
          process_file-Settled c s p FailureShown (fail_run-Shown sure) id command
