-- ===== src/RunState/Accounting.antt =====
-- How each method of the run state moves the row counters.
use reconciliation_ingestion.Prelude.{
  ℕ, ◌+◌, Bool, true, List, [], ◌∷◌, ◌≡◌, refl, ◌∙◌, arith, if◌then◌else◌, is_some, Bool-cases, inl,
  inr,
}
use reconciliation_ingestion.Quality.Types.{QualityOutcome, QualityViolation, code_value, is_valid}
use reconciliation_ingestion.Counter.{increment}
use reconciliation_ingestion.Duplicates.{BatchWriteResult, DuplicateDetail}
use reconciliation_ingestion.RunState.State.{
  IngestionRunState, RowOutcome, ErrorEntry, add_error, add_violations, record_valid_row,
  record_invalid_row, serialize_quality_violation,
}
use reconciliation_ingestion.RunState.Defs.{
  count_violations, count_outcome, record_quality, record_quality_evaluation, record_row_outcome,
  note_row, advance_quality_disposition, record_batch_result, record_batch_errors, record_details,
  duplicate_evaluation, add_result, is_plain_valid, should_log_row_error,
}

-- The counters that account for rows.
pub record RowCounts : Type 0 where
  pub total : ℕ
  pub success : ℕ
  pub failed : ℕ
  pub duplicate : ℕ
  pub rejected : ℕ
  pub persistence_failed : ℕ
  pub quarantined : ℕ

abbrev row_counts : IngestionRunState → RowCounts
row_counts s = record {
  total = s.total_rows;
  success = s.success_rows;
  failed = s.failed_rows;
  duplicate = s.duplicate_rows;
  rejected = s.rejected_rows;
  persistence_failed = s.persistence_failed_rows;
  quarantined = s.quarantined_rows;
}

row_counts-add_error :
    (e : ErrorEntry) (s : IngestionRunState) → row_counts (add_error e s) ≡ row_counts s
unfolding add_error
row_counts-add_error e s = ground arith

row_counts-add_violations :
    (vs : List QualityViolation) (s : IngestionRunState)
    → row_counts (add_violations vs s) ≡ row_counts s
unfolding add_violations
row_counts-add_violations [] s = refl
row_counts-add_violations (v ∷ vs) s = cc (
  row_counts-add_violations vs (add_error (serialize_quality_violation v) s),
  row_counts-add_error (serialize_quality_violation v) s,
)

row_counts-count_violations :
    (vs : List QualityViolation) (s : IngestionRunState)
    → row_counts (count_violations vs s) ≡ row_counts s
unfolding count_violations
row_counts-count_violations [] s = refl
row_counts-count_violations (v ∷ vs) s =
    row_counts-count_violations vs
      (record s { quality_rule_counts = increment (code_value v.code) s.quality_rule_counts })

row_counts-count_outcome :
    (o : QualityOutcome) (w : Bool) (s : IngestionRunState)
    → row_counts (count_outcome o w s) ≡ row_counts s
unfolding count_outcome
row_counts-count_outcome o w s = ground arith

row_counts-record_quality :
    (o : QualityOutcome) (vs : List QualityViolation) (w : Bool) (s : IngestionRunState)
    → row_counts (record_quality o vs w s) ≡ row_counts s
unfolding record_quality advance_quality_disposition
row_counts-record_quality o vs w s = elim (Bool-cases (is_plain_valid o)) [
  | inl e ↦ rw e refl
  | inr e ↦ rw e (row_counts-count_outcome o w _ ∙ row_counts-count_violations vs _)
]

abbrev one_rejected : RowCounts → RowCounts
one_rejected c = record c { failed = c.failed + 1; rejected = c.rejected + 1 }

row_counts-note_row :
    {C : Type 0} (r : RowOutcome C) (s : IngestionRunState)
    → row_counts (note_row r s)
      ≡ (if is_valid r.outcome then row_counts s else one_rejected (row_counts s))
unfolding note_row record_valid_row record_invalid_row
row_counts-note_row r s = ground (
  arith,
  row_counts-add_violations r.violations (record_valid_row r.ingestion_key s),
  row_counts-add_violations r.violations
      (record s { failed_rows = s.failed_rows + 1; rejected_rows = s.rejected_rows + 1 }),
)

-- One row outcome: a row that is not valid counts as failed and rejected.
pub row_counts-record_row_outcome :
    {C : Type 0} (r : RowOutcome C) (s : IngestionRunState)
    → row_counts (record_row_outcome r s)
      ≡ (if is_valid r.outcome then row_counts s else one_rejected (row_counts s))
unfolding record_row_outcome
row_counts-record_row_outcome r s =
    row_counts-record_quality r.outcome r.violations true (note_row r s) ∙ row_counts-note_row r s

row_counts-record_details :
    {Row : Type 0} (ds : List (DuplicateDetail Row)) (s : IngestionRunState)
    → row_counts (record_details ds s) ≡ row_counts s
unfolding record_details record_quality_evaluation
row_counts-record_details [] s = refl
row_counts-record_details (d ∷ ds) s =
    let e = duplicate_evaluation d in
    row_counts-record_details ds (record_quality_evaluation e s)
    ∙ row_counts-record_quality e.outcome e.violations (is_some e.row_number) s

row_counts-record_batch_errors :
    {Row : Type 0} (r : BatchWriteResult Row) (s : IngestionRunState)
    → row_counts (record_batch_errors r s) ≡ row_counts s
unfolding record_batch_errors add_error
row_counts-record_batch_errors r s = ground arith

-- One batch result: its rows are added to the counters that they belong to.
pub row_counts-record_batch_result :
    {Row : Type 0} (r : BatchWriteResult Row) (s : IngestionRunState)
    → row_counts (record_batch_result r s) ≡ row_counts (add_result r s)
unfolding record_batch_result
row_counts-record_batch_result r s =
    row_counts-record_batch_errors r (record_details r.duplicate_details (add_result r s))
    ∙ row_counts-record_details r.duplicate_details (add_result r s)

pub row_counts-should_log_row_error :
    (s : IngestionRunState) → row_counts (should_log_row_error s).0 ≡ row_counts s
unfolding should_log_row_error
row_counts-should_log_row_error s = ground arith
