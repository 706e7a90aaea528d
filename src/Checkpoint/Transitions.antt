-- ===== src/Checkpoint/Transitions.antt =====
-- The transitions of src/infrastructure/ingestion/checkpoint_repository.py that end a unit, resolve it or move
-- its stream on. Each is one atomic update of the stream's document.
use reconciliation_ingestion.Prelude.{String, Bool, Option, if◌then◌else◌}
use reconciliation_ingestion.Result.{Result, ok, err, value_error}
use reconciliation_ingestion.Checkpoint.Types.{IngestionCheckpoint, HighWaterMark, ResolutionAction}
use reconciliation_ingestion.Checkpoint.Collection.{Collection}
use reconciliation_ingestion.Checkpoint.ClaimQuery.{Tick, is_zero_limit}
use reconciliation_ingestion.Checkpoint.Updates.{
  is_held, Failure, failed_with, released, resolution_action, is_blocked_on, resolved,
  completed_with, is_completed_on, advanced_to_next,
}

module _ (c : Collection) where
  open c use {Db, update_one}

  -- `mark_failed`
  unfoldable pub mark_failed : IngestionCheckpoint → String → Failure → Tick → Db → Result Bool × Db
  unfolding is_held failed_with
  mark_failed checkpoint unit_key f tick db =
      let (modified, db') =
        update_one checkpoint.stream (is_held checkpoint.claim_id unit_key)
          (failed_with checkpoint unit_key f tick) db in
      if is_zero_limit f.max_attempts
      then (err (value_error "max_attempts must be at least 1"), db)
      else (ok modified, db')

  -- `release_for_review`
  unfoldable pub release_for_review : IngestionCheckpoint → String → String → Tick → Db → Bool × Db
  unfolding is_held released
  release_for_review checkpoint unit_key reason tick =
      update_one checkpoint.stream (is_held checkpoint.claim_id unit_key)
        (released checkpoint unit_key reason tick)

  -- `mark_completed`
  unfoldable pub mark_completed :
      IngestionCheckpoint → String → Option String → Option HighWaterMark → Tick → Db → Bool × Db
  unfolding is_held completed_with
  mark_completed checkpoint unit_key cursor_after high_water_mark tick =
      update_one checkpoint.stream (is_held checkpoint.claim_id unit_key)
        (completed_with checkpoint unit_key cursor_after high_water_mark tick)

  -- `resolve_blocked` after its check of the action.
  abbrev pub resolve_as :
      IngestionCheckpoint
      → String
      → String
      → String
      → Tick
      → Db
      → Result ResolutionAction
      → Result Bool × Db
  resolve_as checkpoint unit_key reason operator_id tick db (err e) = (err e, db)
  resolve_as checkpoint unit_key reason operator_id tick db (ok action) =
      let (modified, db') =
        update_one checkpoint.stream (is_blocked_on unit_key)
          (resolved checkpoint unit_key action reason operator_id tick) db in
      (ok modified, db')

  unfoldable pub resolve_blocked :
      IngestionCheckpoint → String → String → String → String → Tick → Db → Result Bool × Db
  unfolding resolution_action is_blocked_on resolved
  resolve_blocked checkpoint unit_key action reason operator_id tick db =
      resolve_as checkpoint unit_key reason operator_id tick db (resolution_action action)

  -- `advance`
  unfoldable pub advance : IngestionCheckpoint → String → Tick → Db → Bool × Db
  unfolding is_completed_on advanced_to_next
  advance checkpoint unit_key tick =
      update_one checkpoint.stream (is_completed_on unit_key) (advanced_to_next tick)
