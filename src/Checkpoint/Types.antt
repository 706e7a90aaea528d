-- ===== src/Checkpoint/Types.antt =====
-- The contracts of src/domain/ingestion/checkpoints.py. A time is a number of seconds. Of the dictionaries
-- the keys that the code reads are kept; `lastErrorMetadata` and the document's own `_id` are left out.
use reconciliation_ingestion.Prelude.{ℕ, String, Bool, true, false, List, Option}

pub data CheckpointStatus : Type 0 where
  absent discovered processing completed failed blocked : CheckpointStatus

pub data SourceUnitStatus : Type 0 where
  pending processing completed failed blocked waiting_review replayed skipped : SourceUnitStatus

pub data IngestionMode : Type 0 where
  scheduled backfill : IngestionMode

-- The identity of a stream: the fields of `_stream_filter`.
pub record Stream : Type 0 where
  pub partner : String
  pub fetch_config_id : String
  pub source_type : String
  pub stream_key : String
  pub mode : IngestionMode

pub record SourceUnitSummary : Type 0 where
  pub unit_key : String
  pub label : Option String
  pub page : Option ℕ
  pub status : SourceUnitStatus
  pub cursor_before : Option String
  pub cursor_after : Option String
  pub attempt_count : ℕ
  pub last_error : Option String
  pub error_code : Option String
  pub retryable : Option Bool
  pub next_retry_at : Option ℕ
  pub started_at : Option ℕ
  pub completed_at : Option ℕ
  pub updated_at : ℕ

-- The keys of `streamMetadata` that the repository reads or sets.
pub record StreamMetadata : Type 0 where
  pub page : Option ℕ
  pub label : Option String
  pub attempt : Option ℕ

pub record HighWaterMark : Type 0 where
  pub value : Option String
  pub has_more : Option Bool
  pub content_hash : Option String

pub data ResolutionAction : Type 0 where
  retry skip : ResolutionAction

-- `resolutionMetadata`; the empty dictionary is `none`.
pub record Resolution : Type 0 where
  pub action : ResolutionAction
  pub reason : String
  pub operator_id : String
  pub resolved_at : ℕ

pub record RecoveryEvent : Type 0 where
  pub event_id : String
  pub unit_key : String
  pub status : String
  pub timestamp : ℕ
  pub error_code : Option String
  pub message : Option String
  pub action : Option ResolutionAction
  pub actor : Option String
  pub reason : Option String

pub record IngestionCheckpoint : Type 0 where
  pub stream : Stream
  pub current_unit_key : Option String
  pub last_completed_unit_key : Option String
  pub cursor_before : Option String
  pub cursor_after : Option String
  pub high_water_mark : Option HighWaterMark
  pub stream_ended : Bool
  pub status : CheckpointStatus
  pub attempt_count : ℕ
  pub claim_id : Option String
  pub last_error : Option String
  pub error_code : Option String
  pub retryable : Option Bool
  pub next_retry_at : Option ℕ
  pub blocked_at : Option ℕ
  pub blocked_reason : Option String
  pub resolution : Option Resolution
  pub started_at : Option ℕ
  pub completed_at : Option ℕ
  pub updated_at : ℕ
  pub config_version : Option String
  pub source_endpoint : Option String
  pub runtime_run_id : Option String
  pub source_file_id : Option String
  pub stream_metadata : StreamMetadata
  pub unit_timeline : List SourceUnitSummary
  pub recovery_events : List RecoveryEvent

abbrev pub is_processing : CheckpointStatus → Bool
is_processing CheckpointStatus.processing = true
is_processing _ = false

abbrev pub is_failed : CheckpointStatus → Bool
is_failed CheckpointStatus.failed = true
is_failed _ = false

abbrev pub is_blocked : CheckpointStatus → Bool
is_blocked CheckpointStatus.blocked = true
is_blocked _ = false

abbrev pub is_completed : CheckpointStatus → Bool
is_completed CheckpointStatus.completed = true
is_completed _ = false

abbrev pub is_discovered : CheckpointStatus → Bool
is_discovered CheckpointStatus.discovered = true
is_discovered _ = false

-- `status in {ABSENT, DISCOVERED, COMPLETED}`
abbrev pub is_open : CheckpointStatus → Bool
is_open CheckpointStatus.absent = true
is_open CheckpointStatus.discovered = true
is_open CheckpointStatus.completed = true
is_open _ = false
