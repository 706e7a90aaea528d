-- ===== src/Checkpoint/Updates.antt =====
-- The queries and the updates of the transitions of
-- src/infrastructure/ingestion/checkpoint_repository.py, on one document. The `checkpoint` argument is the
-- caller's copy of the document, which may be out of date.
use text.Mathlib.Text.{◌==◌ as str_eq}
use reconciliation_ingestion.Prelude.{
  ℕ, String, Bool, true, false, ◌&&◌, ◌||◌, not, [], ◌∷◌, ◌++◌, Option, none, some, same_key,
  if◌then◌else◌,
}
use reconciliation_ingestion.Result.{Result, ok, err, value_error}
use reconciliation_ingestion.Checkpoint.Types.{
  IngestionCheckpoint, CheckpointStatus, SourceUnitStatus, HighWaterMark, Resolution,
  ResolutionAction, is_processing, is_blocked, is_completed,
}
use reconciliation_ingestion.Checkpoint.Timeline.{change_to, unit_timeline_update, recovery_event}
use reconciliation_ingestion.Checkpoint.ClaimQuery.{Tick, reaches_limit}

-- The query of a holder: the unit is being processed under its claim.
unfoldable pub is_held : Option String → String → IngestionCheckpoint → Bool
is_held claim_id unit_key d =
    same_key d.current_unit_key (some unit_key)
    && (is_processing d.status && same_key d.claim_id claim_id)

-- The arguments of `mark_failed`.
pub record Failure : Type 0 where
  pub error : String
  pub error_code : String
  pub retryable : Bool
  pub next_retry_at : Option ℕ
  pub max_attempts : Option ℕ

-- `blocked` of `mark_failed`
unfoldable pub blocks : IngestionCheckpoint → Failure → Bool
blocks checkpoint f = not f.retryable || reaches_limit checkpoint.attempt_count f.max_attempts

-- The update of `mark_failed` where the unit may be retried.
unfoldable pub retry_later :
    IngestionCheckpoint → String → Failure → Tick → IngestionCheckpoint → IngestionCheckpoint
retry_later checkpoint unit_key f tick d = record d {
  status = CheckpointStatus.failed;
  last_error = some f.error;
  error_code = some f.error_code;
  retryable = some f.retryable;
  next_retry_at = f.next_retry_at;
  blocked_at = none;
  blocked_reason = none;
  updated_at = tick.now;
  unit_timeline =
      unit_timeline_update checkpoint.unit_timeline unit_key
        (record (change_to SourceUnitStatus.failed) {
          attempt_count = some checkpoint.attempt_count;
          last_error = some f.error;
          error_code = some f.error_code;
          retryable = some f.retryable;
          next_retry_at = f.next_retry_at;
        })
        tick.timeline_now;
  recovery_events =
      d.recovery_events
      ++ (record (recovery_event tick.event_id unit_key "FAILED" tick.now) {
        error_code = some f.error_code;
        message = some f.error;
      }
          ∷ []);
}

-- The update of `mark_failed` where the unit is blocked.
unfoldable pub block :
    IngestionCheckpoint → String → Failure → Tick → IngestionCheckpoint → IngestionCheckpoint
block checkpoint unit_key f tick d = record d {
  status = CheckpointStatus.blocked;
  last_error = some f.error;
  error_code = some f.error_code;
  retryable = some f.retryable;
  next_retry_at = none;
  blocked_at = some tick.now;
  blocked_reason = some f.error;
  updated_at = tick.now;
  unit_timeline =
      unit_timeline_update checkpoint.unit_timeline unit_key
        (record (change_to SourceUnitStatus.blocked) {
          attempt_count = some checkpoint.attempt_count;
          last_error = some f.error;
          error_code = some f.error_code;
          retryable = some f.retryable;
        })
        tick.timeline_now;
  recovery_events =
      d.recovery_events
      ++ (record (recovery_event tick.event_id unit_key "BLOCKED" tick.now) {
        error_code = some f.error_code;
        message = some f.error;
      }
          ∷ []);
}

unfoldable pub failed_with :
    IngestionCheckpoint → String → Failure → Tick → IngestionCheckpoint → IngestionCheckpoint
unfolding blocks block retry_later
failed_with checkpoint unit_key f tick d =
    if blocks checkpoint f
    then block checkpoint unit_key f tick d
    else retry_later checkpoint unit_key f tick d

abbrev pub approval_required : String
approval_required = "configuration_approval_required"

-- The update of `release_for_review`.
unfoldable pub released :
    IngestionCheckpoint → String → String → Tick → IngestionCheckpoint → IngestionCheckpoint
released checkpoint unit_key reason tick d = record d {
  status = CheckpointStatus.discovered;
  current_unit_key = none;
  claim_id = none;
  last_error = some reason;
  error_code = some approval_required;
  retryable = none;
  next_retry_at = none;
  blocked_at = none;
  blocked_reason = none;
  started_at = none;
  updated_at = tick.now;
  unit_timeline =
      unit_timeline_update checkpoint.unit_timeline unit_key
        (record (change_to SourceUnitStatus.waiting_review) {
          attempt_count = some checkpoint.attempt_count;
          last_error = some reason;
          error_code = some approval_required;
        })
        tick.timeline_now;
  recovery_events =
      d.recovery_events
      ++ (record (recovery_event tick.event_id unit_key "WAITING_REVIEW" tick.now) {
        error_code = some approval_required;
        message = some reason;
      }
          ∷ []);
}

-- `action not in {"RETRY", "SKIP"}` raises.
unfoldable pub resolution_action : String → Result ResolutionAction
resolution_action action =
    if str_eq action "RETRY"
    then ok ResolutionAction.retry
    else if str_eq action "SKIP"
    then ok ResolutionAction.skip
    else err (value_error "action must be RETRY or SKIP")

unfoldable pub is_blocked_on : String → IngestionCheckpoint → Bool
is_blocked_on unit_key d = same_key d.current_unit_key (some unit_key) && is_blocked d.status

-- The update of `resolve_blocked`.
unfoldable pub resolved :
    IngestionCheckpoint
    → String
    → ResolutionAction
    → String
    → String
    → Tick
    → IngestionCheckpoint
    → IngestionCheckpoint
resolved checkpoint unit_key action reason operator_id tick d = record d {
  status = CheckpointStatus.discovered;
  retryable = some true;
  next_retry_at = none;
  blocked_at = none;
  blocked_reason = none;
  resolution = some (record {
    action = action;
    reason = reason;
    operator_id = operator_id;
    resolved_at = tick.now;
  });
  updated_at = tick.now;
  unit_timeline =
      unit_timeline_update checkpoint.unit_timeline unit_key
        (record (change_to SourceUnitStatus.pending) { retryable = some true }) tick.timeline_now;
  recovery_events =
      d.recovery_events
      ++ (record (recovery_event tick.event_id unit_key "RESOLVED" tick.now) {
        action = some action;
        actor = some operator_id;
        reason = some reason;
      }
          ∷ []);
}

abbrev pub is_skip : Option Resolution → Bool
is_skip none = false
is_skip (some r) = elim r.action [ ResolutionAction.skip ↦ true | ResolutionAction.retry ↦ false ]

-- `(high_water_mark or {}).get("hasMore") is False`
abbrev has_no_more : Option HighWaterMark → Bool
has_no_more none = false
has_no_more (some h) = elim h.has_more [ some false ↦ true | _ ↦ false ]

-- The update of `mark_completed`.
unfoldable pub completed_with :
    IngestionCheckpoint
    → String
    → Option String
    → Option HighWaterMark
    → Tick
    → IngestionCheckpoint
    → IngestionCheckpoint
completed_with checkpoint unit_key cursor_after high_water_mark tick d =
    let skipped = is_skip checkpoint.resolution in
    record d {
      status = CheckpointStatus.completed;
      last_completed_unit_key = some unit_key;
      cursor_after = cursor_after;
      high_water_mark = high_water_mark;
      stream_ended = has_no_more high_water_mark;
      last_error = none;
      error_code = none;
      retryable = none;
      next_retry_at = none;
      blocked_at = none;
      blocked_reason = none;
      resolution = none;
      completed_at = some tick.now;
      updated_at = tick.now;
      unit_timeline =
          unit_timeline_update checkpoint.unit_timeline unit_key
            (record (change_to
              (if skipped then SourceUnitStatus.skipped else SourceUnitStatus.completed)) {
                attempt_count = some checkpoint.attempt_count;
                cursor_after = cursor_after;
                clear_error = true;
                completed_at = some tick.now;
              })
            tick.timeline_now;
      recovery_events =
          d.recovery_events
          ++ (recovery_event tick.event_id unit_key (if skipped then "SKIPPED" else "COMPLETED")
                tick.now
              ∷ []);
    }

unfoldable pub is_completed_on : String → IngestionCheckpoint → Bool
is_completed_on unit_key d =
    same_key d.current_unit_key (some unit_key)
    && (same_key d.last_completed_unit_key (some unit_key) && is_completed d.status)

-- The update of `advance`.
unfoldable pub advanced_to_next : Tick → IngestionCheckpoint → IngestionCheckpoint
advanced_to_next tick d = record d {
  status = CheckpointStatus.discovered;
  current_unit_key = none;
  updated_at = tick.now;
}
