-- ===== src/Checkpoint/Timeline.antt =====
-- `_unit_timeline_update` and `_recovery_event_update` of
-- src/infrastructure/ingestion/checkpoint_repository.py.
use text.Mathlib.Text.{◌==◌ as str_eq}
use reconciliation_ingestion.Prelude.{
  ℕ, String, Bool, false, List, [], ◌∷◌, Option, none, some, or_else, get_or, if◌then◌else◌,
}
use reconciliation_ingestion.Checkpoint.Types.{
  SourceUnitStatus, pending, SourceUnitSummary, RecoveryEvent,
}

-- The keyword arguments of `_unit_timeline_update`.
pub record UnitChange : Type 0 where
  pub status : SourceUnitStatus
  pub page : Option ℕ
  pub label : Option String
  pub cursor_before : Option String
  pub cursor_after : Option String
  pub attempt_count : Option ℕ
  pub last_error : Option String
  pub error_code : Option String
  pub retryable : Option Bool
  pub next_retry_at : Option ℕ
  pub started_at : Option ℕ
  pub completed_at : Option ℕ
  pub clear_error : Bool

-- Their defaults.
abbrev pub change_to : SourceUnitStatus → UnitChange
change_to status = record {
  status = status;
  page = none;
  label = none;
  cursor_before = none;
  cursor_after = none;
  attempt_count = none;
  last_error = none;
  error_code = none;
  retryable = none;
  next_retry_at = none;
  started_at = none;
  completed_at = none;
  clear_error = false;
}

abbrev pub new_unit : String → ℕ → SourceUnitSummary
new_unit unit_key now = record {
  unit_key = unit_key;
  label = none;
  page = none;
  status = pending;
  cursor_before = none;
  cursor_after = none;
  attempt_count = 0;
  last_error = none;
  error_code = none;
  retryable = none;
  next_retry_at = none;
  started_at = none;
  completed_at = none;
  updated_at = now;
}

-- `current.model_copy(update=updates)`
unfoldable pub change_unit : UnitChange → ℕ → SourceUnitSummary → SourceUnitSummary
change_unit c now u = record u {
  status = c.status;
  updated_at = now;
  page = or_else c.page u.page;
  label = or_else c.label u.label;
  cursor_before = or_else c.cursor_before u.cursor_before;
  cursor_after = or_else c.cursor_after u.cursor_after;
  attempt_count = get_or u.attempt_count c.attempt_count;
  last_error = if c.clear_error then none else c.last_error;
  error_code = if c.clear_error then none else c.error_code;
  retryable = if c.clear_error then none else c.retryable;
  next_retry_at = if c.clear_error then none else c.next_retry_at;
  started_at = or_else c.started_at u.started_at;
  completed_at = c.completed_at;
}

-- The first entry of a unit.
unfoldable pub find_unit : String → List SourceUnitSummary → Option SourceUnitSummary
find_unit key [] = none
find_unit key (u ∷ us) =
    let rest = find_unit key us in if str_eq u.unit_key key then some u else rest

-- `_unit_timeline_update`: the first entry of the unit is changed, or a new one is appended.
unfoldable pub unit_timeline_update :
    List SourceUnitSummary → String → UnitChange → ℕ → List SourceUnitSummary
unfolding change_unit
unit_timeline_update [] key c now = change_unit c now (new_unit key now) ∷ []
unit_timeline_update (u ∷ us) key c now =
    let rest = unit_timeline_update us key c now in
    if str_eq u.unit_key key then change_unit c now u ∷ us else u ∷ rest

-- `_recovery_event_update`
unfoldable pub recovery_event : String → String → String → ℕ → RecoveryEvent
recovery_event event_id unit_key status timestamp = record {
  event_id = event_id;
  unit_key = unit_key;
  status = status;
  timestamp = timestamp;
  error_code = none;
  message = none;
  action = none;
  actor = none;
  reason = none;
}
