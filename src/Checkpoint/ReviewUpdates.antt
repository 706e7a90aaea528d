-- ===== src/Checkpoint/ReviewUpdates.antt =====
-- The queries and the updates of the transitions of src/infrastructure/ingestion/checkpoint_repository.py that an
-- operator or a scope review asks for, on one document.
use text.Mathlib.Text.{◌==◌ as str_eq}
use reconciliation_ingestion.Prelude.{
  ℕ, String, Bool, true, false, ◌&&◌, not, List, [], ◌∷◌, ◌++◌, Option, none, some, same_key,
  or_else, get_or, if◌then◌else◌,
}
use reconciliation_ingestion.Checkpoint.Types.{
  IngestionCheckpoint, CheckpointStatus, SourceUnitStatus, SourceUnitSummary, HighWaterMark,
  ResolutionAction, is_failed, is_discovered,
}
use reconciliation_ingestion.Checkpoint.Timeline.{
  change_to, new_unit, find_unit, unit_timeline_update, recovery_event,
}
use reconciliation_ingestion.Checkpoint.ClaimQuery.{Tick}

abbrev pub is_true : Option Bool → Bool
is_true (some true) = true
is_true _ = false

-- The query of `prepare_manual_retry`.
unfoldable pub is_retryable_on : String → IngestionCheckpoint → Bool
is_retryable_on unit_key d =
    same_key d.current_unit_key (some unit_key) && (is_failed d.status && is_true d.retryable)

-- The update of `prepare_manual_retry`.
unfoldable pub retry_requested :
    IngestionCheckpoint
    → String
    → String
    → String
    → Tick
    → IngestionCheckpoint
    → IngestionCheckpoint
retry_requested checkpoint unit_key operator_id reason tick d = record d {
  next_retry_at = none;
  updated_at = tick.now;
  resolution = some (record {
    action = ResolutionAction.retry;
    reason = reason;
    operator_id = operator_id;
    resolved_at = tick.now;
  });
  unit_timeline =
      unit_timeline_update checkpoint.unit_timeline unit_key
        (record (change_to SourceUnitStatus.failed) {
          attempt_count = some checkpoint.attempt_count;
          last_error = checkpoint.last_error;
          error_code = checkpoint.error_code;
          retryable = some true;
        })
        tick.timeline_now;
  recovery_events =
      d.recovery_events
      ++ (record (recovery_event tick.event_id unit_key "RETRY_REQUESTED" tick.now) {
        action = some ResolutionAction.retry;
        actor = some operator_id;
        reason = some reason;
      }
          ∷ []);
}

-- `if not checkpoint.current_unit_key`
abbrev pub current_unit : IngestionCheckpoint → Option String
current_unit checkpoint = elim checkpoint.current_unit_key [
  | none ↦ none
  | some key ↦ if str_eq key "" then none else some key
]

-- A payload of `completed_units`; its unit key under either of its two names.
pub record CompletedUnit : Type 0 where
  pub unit_key : Option String
  pub page : Option ℕ
  pub label : Option String
  pub cursor_before : Option String
  pub cursor_after : Option String

-- timeline[item.unit_key] = item, in a dictionary that keeps the order of its keys
unfoldable put_unit : SourceUnitSummary → List SourceUnitSummary → List SourceUnitSummary
put_unit x [] = x ∷ []
put_unit x (u ∷ us) =
    let rest = put_unit x us in if str_eq u.unit_key x.unit_key then x ∷ us else u ∷ rest

-- {item.unit_key: item for item in timeline}, onto the entries before
unfoldable index_units : List SourceUnitSummary → List SourceUnitSummary → List SourceUnitSummary
unfolding put_unit
index_units [] indexed = indexed
index_units (u ∷ us) indexed = index_units us (put_unit u indexed)

unfoldable pub complete_unit : CompletedUnit → ℕ → SourceUnitSummary → SourceUnitSummary
complete_unit p now u = record u {
  status = SourceUnitStatus.completed;
  last_error = none;
  error_code = none;
  retryable = none;
  next_retry_at = none;
  completed_at = some now;
  updated_at = now;
  page = or_else p.page u.page;
  label = or_else p.label u.label;
  cursor_before = or_else p.cursor_before u.cursor_before;
  cursor_after = or_else p.cursor_after u.cursor_after;
}

-- One round of the loop over the payloads; one without a key is passed over.
unfoldable complete_payload : ℕ → CompletedUnit → List SourceUnitSummary → List SourceUnitSummary
unfolding put_unit complete_unit
complete_payload now p timeline = elim p.unit_key [
  | none ↦ timeline
  | some key ↦
      if str_eq key ""
      then timeline
      else put_unit (complete_unit p now (get_or (new_unit key now) (find_unit key timeline)))
          timeline
]

unfoldable complete_payloads :
    ℕ → List CompletedUnit → List SourceUnitSummary → List SourceUnitSummary
unfolding complete_payload
complete_payloads now [] timeline = timeline
complete_payloads now (p ∷ ps) timeline = complete_payloads now ps (complete_payload now p timeline)

-- `completed_units or [{"unitKey": unit_key, "cursorAfter": cursor_after}]`
unfoldable payloads_or : String → Option String → List CompletedUnit → List CompletedUnit
payloads_or unit_key cursor_after [] =
    record {
      unit_key = some unit_key;
      page = none;
      label = none;
      cursor_before = none;
      cursor_after = cursor_after;
    }
    ∷ []
payloads_or unit_key cursor_after (p ∷ ps) = p ∷ ps

-- The query of the two transitions after a review.
unfoldable pub is_under_review : IngestionCheckpoint → Bool
is_under_review d = is_discovered d.status && not d.stream_ended

-- The update of `mark_stream_completed_after_review`.
unfoldable pub stream_completed :
    IngestionCheckpoint
    → String
    → Option String
    → Option HighWaterMark
    → List CompletedUnit
    → Tick
    → IngestionCheckpoint
    → IngestionCheckpoint
unfolding complete_payloads index_units payloads_or
stream_completed checkpoint unit_key cursor_after high_water_mark completed_units tick d =
    record d {
      status = CheckpointStatus.discovered;
      current_unit_key = none;
      last_completed_unit_key = some unit_key;
      cursor_after = cursor_after;
      high_water_mark = high_water_mark;
      stream_ended = true;
      last_error = none;
      error_code = none;
      retryable = none;
      next_retry_at = none;
      resolution = none;
      completed_at = some tick.now;
      updated_at = tick.now;
      unit_timeline =
          complete_payloads tick.now (payloads_or unit_key cursor_after completed_units)
            (index_units checkpoint.unit_timeline []);
      recovery_events =
          d.recovery_events
          ++ (record (recovery_event tick.event_id unit_key "COMPLETED" tick.now) {
            reason = some "Post-approval staged stream reconciliation completed.";
          }
              ∷ []);
    }

-- The update of `mark_stream_failed_after_review`.
unfoldable pub stream_failed :
    IngestionCheckpoint
    → String
    → String
    → String
    → Tick
    → IngestionCheckpoint
    → IngestionCheckpoint
stream_failed checkpoint unit_key error error_code tick d = record d {
  status = CheckpointStatus.failed;
  current_unit_key = some unit_key;
  last_error = some error;
  error_code = some error_code;
  retryable = some true;
  next_retry_at = none;
  blocked_at = none;
  blocked_reason = none;
  updated_at = tick.now;
  unit_timeline =
      unit_timeline_update checkpoint.unit_timeline unit_key
        (record (change_to SourceUnitStatus.failed) {
          last_error = some error;
          error_code = some error_code;
          retryable = some true;
        })
        tick.timeline_now;
  recovery_events =
      d.recovery_events
      ++ (record (recovery_event tick.event_id unit_key "FAILED" tick.now) {
        error_code = some error_code;
        message = some error;
      }
          ∷ []);
}
