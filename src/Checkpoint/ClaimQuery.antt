-- ===== src/Checkpoint/ClaimQuery.antt =====
-- The query and the updates of `claim_unit` of src/infrastructure/ingestion/checkpoint_repository.py, on one
-- document. A claim timeout is a natural number, so the check that it is not negative has nothing to refuse.
use text.Mathlib.Text.{◌==◌ as str_eq}
use reconciliation_ingestion.Prelude.{
  ℕ, ◌+◌, max, String, Bool, true, false, ◌&&◌, ◌||◌, not, List, [], ◌∷◌, ◌++◌, Option, none, some,
  ltb, leb, ◌==◌, same_key, or_else, is_some, if◌then◌else◌,
}
use reconciliation_ingestion.Checkpoint.Types.{
  Stream, StreamMetadata, IngestionCheckpoint, CheckpointStatus, SourceUnitStatus,
  SourceUnitSummary, is_open, is_failed, is_processing,
}
use reconciliation_ingestion.Checkpoint.Timeline.{
  change_to, find_unit, unit_timeline_update, recovery_event,
}

pub record ClaimRequest : Type 0 where
  pub stream : Stream
  pub unit_key : String
  pub cursor_before : Option String
  pub expected_previous_unit_key : Option String
  pub max_attempts : Option ℕ
  pub config_version : Option String
  pub source_endpoint : Option String
  pub stream_metadata : StreamMetadata
  pub runtime_run_id : Option String
  pub source_file_id : Option String
  pub attempt : Option ℕ
  pub claim_timeout_seconds : ℕ

-- The readings of the clock and the fresh identifiers of one operation.
pub record Tick : Type 0 where
  pub now : ℕ
  pub timeline_now : ℕ
  pub claim_id : String
  pub event_id : String

pub record Interference (Db : Type 0) : Type 0 where
  pub before_insert : Db → Db
  pub before_claim : Db → Db
  pub before_reread : Db → Db
  pub before_block : Db → Db

-- stream_metadata.setdefault("attempt", max(1, int(attempt)))
unfoldable with_attempt : Option ℕ → StreamMetadata → StreamMetadata
with_attempt none meta = meta
with_attempt (some n) meta = record meta { attempt = or_else meta.attempt (some (max 1 n)) }

unfoldable claim_metadata : ClaimRequest → StreamMetadata
unfolding with_attempt
claim_metadata r = with_attempt r.attempt r.stream_metadata

-- The document that `claim_unit` creates for a new stream.
unfoldable pub new_checkpoint : ClaimRequest → ℕ → IngestionCheckpoint
unfolding claim_metadata
new_checkpoint r now = record {
  stream = r.stream;
  current_unit_key = none;
  last_completed_unit_key = none;
  cursor_before = none;
  cursor_after = none;
  high_water_mark = none;
  stream_ended = false;
  status = CheckpointStatus.absent;
  attempt_count = 0;
  claim_id = none;
  last_error = none;
  error_code = none;
  retryable = none;
  next_retry_at = none;
  blocked_at = none;
  blocked_reason = none;
  resolution = none;
  started_at = none;
  completed_at = none;
  updated_at = now;
  config_version = r.config_version;
  source_endpoint = r.source_endpoint;
  runtime_run_id = r.runtime_run_id;
  source_file_id = r.source_file_id;
  stream_metadata = claim_metadata r;
  unit_timeline = [];
  recovery_events = [];
}

-- The next attempt of the unit: attempts are counted for each unit, not for the stream.
unfoldable pub next_attempt_count : Option SourceUnitSummary → ℕ
next_attempt_count none = 1
next_attempt_count (some u) = u.attempt_count + 1

-- {"$lte": t}, which matches no missing value
abbrev pub at_most : Option ℕ → ℕ → Bool
at_most none t = false
at_most (some x) t = leb x t

-- {"retryable": {"$ne": False}}
abbrev pub not_false : Option Bool → Bool
not_false (some false) = false
not_false _ = true

-- {"attemptCount": {"$lt": max_attempts}}, where there is a limit
abbrev pub below_limit : ℕ → Option ℕ → Bool
below_limit n none = true
below_limit n (some limit) = ltb n limit

-- `startedAt <= now - timeout`
abbrev pub is_expired : Option ℕ → ℕ → ℕ → Bool
is_expired none timeout now = false
is_expired (some started) timeout now = leb (started + timeout) now

-- A failed unit that is due.
unfoldable pub is_due : ℕ → IngestionCheckpoint → Bool
is_due now d =
    is_failed d.status
    && (not_false d.retryable && (not (is_some d.next_retry_at) || at_most d.next_retry_at now))

-- A claim that has timed out and has an attempt left.
unfoldable pub is_abandoned : ClaimRequest → ℕ → IngestionCheckpoint → Bool
is_abandoned r now d =
    is_processing d.status
    && (is_expired d.started_at r.claim_timeout_seconds now
        && below_limit d.attempt_count r.max_attempts)

-- `query` of `claim_unit`
unfoldable pub is_claimable : ClaimRequest → ℕ → IngestionCheckpoint → Bool
unfolding is_due is_abandoned
is_claimable r now d =
    same_key d.last_completed_unit_key r.expected_previous_unit_key
    && ((is_open d.status || is_due now d) || is_abandoned r now d)

-- `update` of `claim_unit`; the timeline and the attempts are those of the document read before.
unfoldable pub claimed :
    ClaimRequest → Tick → IngestionCheckpoint → IngestionCheckpoint → IngestionCheckpoint
unfolding claim_metadata
claimed r tick seen d =
    let n = next_attempt_count (find_unit r.unit_key seen.unit_timeline) in
    record d {
      current_unit_key = some r.unit_key;
      cursor_before = r.cursor_before;
      status = CheckpointStatus.processing;
      claim_id = some tick.claim_id;
      last_error = none;
      error_code = none;
      retryable = none;
      next_retry_at = none;
      blocked_at = none;
      blocked_reason = none;
      started_at = some tick.now;
      completed_at = none;
      updated_at = tick.now;
      config_version = r.config_version;
      source_endpoint = r.source_endpoint;
      runtime_run_id = r.runtime_run_id;
      source_file_id = r.source_file_id;
      stream_metadata = claim_metadata r;
      unit_timeline =
          unit_timeline_update seen.unit_timeline r.unit_key
            (record (change_to SourceUnitStatus.processing) {
              page = (claim_metadata r).page;
              label = (claim_metadata r).label;
              cursor_before = r.cursor_before;
              attempt_count = some n;
              started_at = some tick.now;
              clear_error = true;
            })
            tick.timeline_now;
      attempt_count = n;
      recovery_events =
          d.recovery_events ++ (recovery_event tick.event_id r.unit_key "PROCESSING" tick.now ∷ []);
    }

-- `stale_query`
unfoldable pub is_stale : IngestionCheckpoint → IngestionCheckpoint → Bool
is_stale existing d =
    same_key d.current_unit_key existing.current_unit_key && is_processing d.status

abbrev attempts_exhausted : String
attempts_exhausted = "Maximum source-unit attempts exhausted."

-- The timeline of `stale_update`, where the document has a current unit.
unfoldable stale_timeline :
    Option String → Tick → IngestionCheckpoint → List SourceUnitSummary → List SourceUnitSummary
stale_timeline none tick existing us = us
stale_timeline (some key) tick existing us =
    if str_eq key ""
    then us
    else unit_timeline_update existing.unit_timeline key
        (record (change_to SourceUnitStatus.blocked) {
          last_error = some attempts_exhausted;
          error_code = existing.error_code;
          retryable = some false;
        })
        tick.timeline_now

-- `stale_update`
unfoldable pub exhausted : Tick → IngestionCheckpoint → IngestionCheckpoint → IngestionCheckpoint
unfolding stale_timeline
exhausted tick existing d = record d {
  status = CheckpointStatus.blocked;
  retryable = some false;
  blocked_at = some tick.now;
  blocked_reason = some attempts_exhausted;
  updated_at = tick.now;
  unit_timeline = stale_timeline existing.current_unit_key tick existing d.unit_timeline;
}

-- `max_attempts is not None and attempt_count >= max_attempts`
abbrev pub reaches_limit : ℕ → Option ℕ → Bool
reaches_limit n none = false
reaches_limit n (some limit) = leb limit n

-- `max_attempts is not None and max_attempts < 1`
abbrev pub is_zero_limit : Option ℕ → Bool
is_zero_limit none = false
is_zero_limit (some limit) = limit == 0
