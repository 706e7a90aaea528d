-- ===== src/Ingestion/Pipeline.antt =====
-- `_process_file` of src/pipeline/ingestion_pipeline.py, phase by phase. Stage events, timings and log lines are left
-- out; the rows are read before they are processed.
use text.Mathlib.Text.{◌==◌ as str_eq}
use reconciliation_ingestion.Prelude.{
  String, Bool, Option, none, some, List, [], ◌∷◌, get_or, if◌then◌else◌,
}
use reconciliation_ingestion.Result.{
  Result, ok, err, raised, Exec, pure, lift, gets, modify, ◌>>=◌, ◌>>◌,
}
use reconciliation_ingestion.Quality.Types.{
  QualityViolation, QualityEvaluation, QualityOutcome, evaluation,
}
use reconciliation_ingestion.Quality.Summary.{from_evaluations}
use reconciliation_ingestion.Quality.Policy.{is_fail}
use reconciliation_ingestion.RunState.State.{IngestionRunState, fresh, add_error}
use reconciliation_ingestion.RowBatch.Coordinator.{run}
use reconciliation_ingestion.Ingestion.Types.{
  ProcessingStatus, ReconciliationFile, FileClaimResult, ProcessFileCommand, RunOutcome,
  IngestionResult,
}
use reconciliation_ingestion.Ingestion.Files.{
  FileCollection, update_status, update_stage_summary, with_status, with_summary,
}
use reconciliation_ingestion.Ingestion.Claim.{derive_fetch_unit_key, claim}
use reconciliation_ingestion.Ingestion.Finalizer.{
  World, on_db, on_run, on_record, attempt, complete, fail,
}
use reconciliation_ingestion.Ingestion.Phases.{
  Preparation, prepared, approval_required, load_error, Inspection, inspected, unreadable, Ports,
  is_missing_ingestion_key_failure, build_result, field_error, record_gate,
  configuration_violations, unreadable_evaluation,
}

module _ (c : FileCollection) {Config Row Container : Type 0} (p : Ports Config Row Container) where
  open c use {Db}

  abbrev M : Type 0 → Type 0
  M A = Exec (World Db) A

  abbrev pub result : RunOutcome → Option String → M IngestionResult
  result outcome code = gets (λ w. build_result outcome code w.file_record w.state)

  -- `_persist_stage_summary`, of the claimed record's `_id`.
  unfoldable pub persist_stage_summary : String → M (Unit {0})
  unfolding ◌>>=◌
  persist_stage_summary id = do
    s ← gets (λ w. w.state)
    on_record (with_summary (p.summary_of s))
    attempt (on_db (update_stage_summary c id (p.summary_of s)))

  -- `_duplicate_result_if_any`, of a claim that has created nothing.
  unfoldable pub duplicate_result : String → M IngestionResult
  unfolding ◌>>=◌
  duplicate_result code =
      on_run (add_error (field_error code))
      >> result
          (if str_eq code "fetch_unit_duplicate"
            then RunOutcome.fetch_unit_replay
            else RunOutcome.file_duplicate)
          (some code)

  -- A configuration that waits for its approval.
  unfoldable pub await_approval : String → M IngestionResult
  unfolding ◌>>=◌ persist_stage_summary
  await_approval id = do
    written ← on_db (update_status c id ProcessingStatus.pending)
    on_record (with_status ProcessingStatus.pending)
    on_run (add_error (field_error "configApproval"))
    persist_stage_summary id
    result RunOutcome.waiting_review none

  -- A configuration that cannot be loaded.
  unfoldable pub refuse_configuration : String → List QualityViolation → M IngestionResult
  unfolding ◌>>=◌ evaluation
  refuse_configuration message vs =
      on_run (
        record_gate
          (evaluation QualityOutcome.batch_fatal (configuration_violations message vs) none))
      >> lift (err (raised "QualityGateFailure"))

  abbrev pub fail_run : M IngestionResult
  fail_run = fail c p.summary_of >> result RunOutcome.failed none

  -- `_run_row_phase`
  unfoldable pub run_row_phase : Config → M (Unit {0})
  unfolding ◌>>=◌
  run_row_phase config = do
    rows ← lift (p.read_rows config)
    λ w.
        let (r, t) =
          run (p.collaborators config) rows
            (record { state = w.state; pending = []; db_write_count = 0 }) in
        (r, record w { state = t.state })

  -- `_finalize_success`
  unfoldable pub finalize_success : Bool → String → M (Unit {0})
  unfolding ◌>>=◌
  finalize_success health id = do
    complete c p.summary_of id
    s ← gets (λ w. w.state)
    if health then lift (p.record_run_health s) else pure tt

  unfoldable pub after_rows : Bool → String → IngestionRunState → M IngestionResult
  unfolding ◌>>=◌ fail finalize_success
  after_rows health id s =
      if is_missing_ingestion_key_failure s
      then fail_run
      else (finalize_success health id >> result RunOutcome.ingested none)

  abbrev pub gate_evaluation : Inspection → QualityEvaluation
  gate_evaluation (inspected e) = e
  gate_evaluation (unreadable message) = unreadable_evaluation message

  abbrev pub rows_phase : Bool → String → Config → M IngestionResult
  rows_phase health id config = do
    run_row_phase config
    s ← gets (λ w. w.state)
    after_rows health id s

  -- `file_quality.decision.value == "FAIL"`
  abbrev pub refuses : QualityEvaluation → Bool
  refuses e = is_fail (from_evaluations (e ∷ [])).decision

  -- `_evaluate_file_quality_gate`, and the rest of the run by its decision.
  unfoldable pub gate_phase : Bool → String → Config → M IngestionResult
  unfolding ◌>>=◌ fail run_row_phase after_rows
  gate_phase health id config = do
    inspection ← lift (p.inspect config)
    on_run (record_gate (gate_evaluation inspection))
    if refuses (gate_evaluation inspection) then fail_run else rows_phase health id config

  abbrev pub prepared_phase : Bool → String → Preparation Config → M IngestionResult
  prepared_phase health id (prepared config) = gate_phase health id config
  prepared_phase health id approval_required = await_approval id
  prepared_phase health id (load_error message vs) = refuse_configuration message vs

  -- The run of a file that this call has claimed.
  unfoldable pub process_claimed : Bool → ReconciliationFile → M IngestionResult
  unfolding ◌>>=◌ persist_stage_summary gate_phase await_approval refuse_configuration
  process_claimed health d = do
    persist_stage_summary d.id
    preparation ← lift (p.prepare d)
    prepared_phase health d.id preparation

  module _ (id : String) (command : ProcessFileCommand) where
    -- `_claim_source_file`
    unfoldable pub claim_source_file : M FileClaimResult
    unfolding ◌>>=◌
    claim_source_file = do
      file_hash ← lift (p.digests.compute_file_hash command.file_path)
      key ← lift (derive_fetch_unit_key p.digests command command.fetch_unit_metadata)
      on_db (claim c p.digests p.counts id command file_hash key)

    abbrev pub after_claim : FileClaimResult → M IngestionResult
    after_claim r =
        modify (λ w. record w { file_record = some r.file_record })
        >> (if r.created
            then process_claimed command.enable_config_health_check r.file_record
            else duplicate_result (get_or "file_duplicate" r.duplicate_code))

    abbrev pub handled : Result IngestionResult × World Db → Result IngestionResult × World Db
    handled (ok x, w) = (ok x, w)
    handled (err e, w) = fail_run w

    abbrev pub begin : Db → World Db
    begin db = record { db = db; state = fresh; file_record = none }

    -- `_process_file`; `id` is that of the record that a new claim makes.
    unfoldable pub process_file : Db → Result IngestionResult × World Db
    unfolding ◌>>=◌ claim_source_file process_claimed duplicate_result fail
    process_file db = handled ((claim_source_file >>= after_claim) (begin db))
