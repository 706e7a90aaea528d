-- ===== src/Checkpoint/Review.antt =====
-- The transitions of src/infrastructure/ingestion/checkpoint_repository.py that an operator or a scope
-- review asks for: `prepare_manual_retry`, `mark_stream_completed_after_review` and
-- `mark_stream_failed_after_review`.
use reconciliation_ingestion.Prelude.{String, Bool, true, false, List, Option, none, some}
use reconciliation_ingestion.Checkpoint.Types.{IngestionCheckpoint, HighWaterMark, is_failed}
use reconciliation_ingestion.Checkpoint.Collection.{Collection}
use reconciliation_ingestion.Checkpoint.ClaimQuery.{Tick}
use reconciliation_ingestion.Checkpoint.ReviewUpdates.{
  is_true, is_retryable_on, retry_requested, current_unit, CompletedUnit, is_under_review,
  stream_completed, stream_failed,
}

module _ (c : Collection) where
  open c use {Db, update_one}

  -- `prepare_manual_retry` on the answers of its checks: FAILED, a current unit, retryable.
  abbrev pub retry_where :
      IngestionCheckpoint → String → String → Tick → Db → Bool → Option String → Bool → Bool × Db
  retry_where checkpoint operator_id reason tick db false key retryable = (false, db)
  retry_where checkpoint operator_id reason tick db true none retryable = (false, db)
  retry_where checkpoint operator_id reason tick db true (some key) false = (false, db)
  retry_where checkpoint operator_id reason tick db true (some key) true =
      update_one checkpoint.stream (is_retryable_on key)
        (retry_requested checkpoint key operator_id reason tick) db

  unfoldable pub prepare_manual_retry :
      IngestionCheckpoint → String → String → Tick → Db → Bool × Db
  unfolding is_retryable_on retry_requested
  prepare_manual_retry checkpoint operator_id reason tick db =
      retry_where checkpoint operator_id reason tick db (is_failed checkpoint.status)
        (current_unit checkpoint) (is_true checkpoint.retryable)

  unfoldable pub mark_stream_completed_after_review :
      IngestionCheckpoint
      → String
      → Option String
      → Option HighWaterMark
      → List CompletedUnit
      → Tick
      → Db
      → Bool × Db
  unfolding is_under_review stream_completed
  mark_stream_completed_after_review checkpoint unit_key cursor_after high_water_mark
        completed_units tick =
      update_one checkpoint.stream is_under_review
        (stream_completed checkpoint unit_key cursor_after high_water_mark completed_units tick)

  unfoldable pub mark_stream_failed_after_review :
      IngestionCheckpoint → String → String → String → Tick → Db → Bool × Db
  unfolding is_under_review stream_failed
  mark_stream_failed_after_review checkpoint unit_key error error_code tick =
      update_one checkpoint.stream is_under_review
        (stream_failed checkpoint unit_key error error_code tick)
