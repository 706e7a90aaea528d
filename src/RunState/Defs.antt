-- ===== src/RunState/Defs.antt =====
-- The methods of `IngestionRunState` of src/pipeline/run_state.py that record outcomes and batch results.
use reconciliation_ingestion.Prelude.{
  ℕ, ◌+◌, Bool, true, false, ◌||◌, List, [], ◌∷◌, none, some, ltb, leb, is_some, if◌then◌else◌,
}
use reconciliation_ingestion.Counter.{increment}
use reconciliation_ingestion.Quality.Types.{
  QualityRuleCode, QualityOutcome, QualityDecision, QualityViolation, QualityEvaluation, code_value,
  outcome_value, is_warning, is_valid, is_conflicting_code, evaluation, review, persistence, info,
  error,
}
use reconciliation_ingestion.Quality.Summary.{QualitySummary, from_counts}
use reconciliation_ingestion.Quality.Policy.{OrchestrationAction, hold_for_review}
use reconciliation_ingestion.Duplicates.{BatchWriteResult, DuplicateDetail}
use reconciliation_ingestion.RunState.State.{
  error_sample_limit, RowOutcome, IngestionRunState, add_error, add_violations, record_invalid_row,
  record_valid_row,
}

-- The decision and the action after one more outcome.
unfoldable pub advance_disposition :
    QualityOutcome → QualityDecision × OrchestrationAction → QualityDecision × OrchestrationAction
advance_disposition QualityOutcome.batch_fatal d = (QualityDecision.fail, OrchestrationAction.fail)
advance_disposition o (QualityDecision.fail, action) = (QualityDecision.fail, action)
advance_disposition QualityOutcome.conflicting_duplicate d = (review, hold_for_review)
advance_disposition QualityOutcome.reject (decision, action) = (review, action)
advance_disposition QualityOutcome.warning (decision, action) = (review, action)
advance_disposition o d = d

unfoldable pub advance_quality_disposition : QualityOutcome → IngestionRunState → IngestionRunState
unfolding advance_disposition
advance_quality_disposition o s =
    let (decision, action) = advance_disposition o (s.quality_decision, s.orchestration_action) in
    record s { quality_decision = decision; orchestration_action = action }

-- quality_rule_counts[code] = quality_rule_counts.get(code, 0) + 1, for each violation
unfoldable pub count_violations : List QualityViolation → IngestionRunState → IngestionRunState
count_violations [] s = s
count_violations (v ∷ vs) s =
    count_violations vs
      (record s { quality_rule_counts = increment (code_value v.code) s.quality_rule_counts })

-- The row counters of an outcome that is not VALID.
unfoldable pub count_outcome : QualityOutcome → Bool → IngestionRunState → IngestionRunState
count_outcome QualityOutcome.conflicting_duplicate w s = record s {
  conflicting_duplicate_rows = s.conflicting_duplicate_rows + 1;
}
count_outcome QualityOutcome.equivalent_duplicate w s = record s {
  equivalent_duplicate_rows = s.equivalent_duplicate_rows + 1;
}
count_outcome QualityOutcome.warning true s = record s { warning_rows = s.warning_rows + 1 }
count_outcome o w s = s

abbrev pub is_plain_valid : QualityOutcome → Bool
is_plain_valid QualityOutcome.valid = true
is_plain_valid _ = false

-- `_record_quality`
unfoldable pub record_quality :
    QualityOutcome → List QualityViolation → Bool → IngestionRunState → IngestionRunState
record_quality o vs count_warning_row s =
    let counted = record s {
      quality_outcome_counts = increment (outcome_value o) s.quality_outcome_counts;
    } in
    if is_plain_valid o
    then counted
    else advance_quality_disposition o
        (count_outcome o count_warning_row (count_violations vs counted))

unfoldable pub record_quality_evaluation : QualityEvaluation → IngestionRunState → IngestionRunState
record_quality_evaluation e = record_quality e.outcome e.violations (is_some e.row_number)

-- The samples and counters of one row outcome, before its quality is recorded.
unfoldable pub note_row : {C : Type 0} → RowOutcome C → IngestionRunState → IngestionRunState
note_row r s =
    if is_valid r.outcome
    then (if is_warning r.outcome
        then add_violations r.violations (record_valid_row r.ingestion_key s)
        else record_valid_row r.ingestion_key s)
    else record_invalid_row r.violations s

unfoldable pub record_row_outcome :
    {C : Type 0} → RowOutcome C → IngestionRunState → IngestionRunState
record_row_outcome r s = record_quality r.outcome r.violations true (note_row r s)

unfoldable pub should_log_row_error : IngestionRunState → IngestionRunState × Bool
should_log_row_error s =
    if leb error_sample_limit s.row_error_logs
    then (s, false)
    else (record s { row_error_logs = s.row_error_logs + 1 }, true)

-- The evaluation that `record_batch_result` builds for one duplicate.
unfoldable pub duplicate_evaluation : {Row : Type 0} → DuplicateDetail Row → QualityEvaluation
unfolding evaluation
duplicate_evaluation d =
    if is_conflicting_code d.duplicate_type
    then evaluation QualityOutcome.conflicting_duplicate
        (record {
          code = QualityRuleCode.conflicting_duplicate;
          phase = persistence;
          severity = error;
          outcome = QualityOutcome.conflicting_duplicate;
          field = some "ingestion_key";
          message = "Duplicate key has a conflicting payload.";
          row = d.row_context.row_number;
          trace = none;
        }
          ∷ [])
        d.row_context.row_number
    else evaluation QualityOutcome.equivalent_duplicate
        (record {
          code = QualityRuleCode.equivalent_duplicate;
          phase = persistence;
          severity = info;
          outcome = QualityOutcome.equivalent_duplicate;
          field = some "ingestion_key";
          message = "Duplicate key has an equivalent payload.";
          row = d.row_context.row_number;
          trace = none;
        }
          ∷ [])
        d.row_context.row_number

unfoldable pub record_details :
    {Row : Type 0} → List (DuplicateDetail Row) → IngestionRunState → IngestionRunState
record_details [] s = s
record_details (d ∷ ds) s = record_details ds (record_quality_evaluation (duplicate_evaluation d) s)

unfoldable pub record_batch_errors :
    {Row : Type 0} → BatchWriteResult Row → IngestionRunState → IngestionRunState
record_batch_errors r s =
    let t =
      if ltb 0 r.duplicates
      then add_error (record { field = some "transaction_duplicate"; error_code = none }) s
      else s in
    if ltb 0 r.failed
    then add_error (record { field = some "batch_conflict"; error_code = none }) t
    else t

-- The first four additions of `record_batch_result`.
unfoldable pub add_result :
    {Row : Type 0} → BatchWriteResult Row → IngestionRunState → IngestionRunState
add_result r s = record s {
  success_rows = s.success_rows + r.inserted;
  duplicate_rows = s.duplicate_rows + r.duplicates;
  failed_rows = s.failed_rows + r.failed;
  persistence_failed_rows = s.persistence_failed_rows + r.failed;
}

unfoldable pub record_batch_result :
    {Row : Type 0} → BatchWriteResult Row → IngestionRunState → IngestionRunState
unfolding add_result
record_batch_result r s =
    record_batch_errors r (record_details r.duplicate_details (add_result r s))

unfoldable record_persistence_failure : IngestionRunState → IngestionRunState
record_persistence_failure s = record s {
  failed_rows = s.failed_rows + 1;
  persistence_failed_rows = s.persistence_failed_rows + 1;
}

unfoldable pub record_quarantined : ℕ → IngestionRunState → IngestionRunState
record_quarantined n s = record s { quarantined_rows = s.quarantined_rows + n }

unfoldable pub is_partial : IngestionRunState → Bool
is_partial s =
    ltb 0 s.rejected_rows || (ltb 0 s.persistence_failed_rows || ltb 0 s.quarantined_rows)

unfoldable pub quality_summary : IngestionRunState → QualitySummary
quality_summary s = from_counts s.quality_rule_counts s.quality_outcome_counts
