-- ===== src/Orchestrator/Outcome.antt =====
-- `SourceUnitMetadata` and `IngestionOutcome` of src/domain/ingestion/source_units.py. A mapping's value is
-- the one that `_first` reads under either spelling of its key. The error metadata and the quality counters
-- are passed on without being read, and are left out.
use reconciliation_ingestion.Prelude.{
  ℕ, String, Bool, true, false, ◌&&◌, ◌||◌, not, List, [], ◌∷◌, Option, none, some, same_key,
  get_or, if◌then◌else◌,
}
use Prim.Native.String.{◌++◌}
use reconciliation_ingestion.Checkpoint.Types.{HighWaterMark}

-- The fields that the orchestrator reads.
pub record SourceUnitMetadata : Type 0 where
  pub source_unit_key : Option String
  pub page : Option ℕ
  pub content_hash : Option String
  pub cursor_before : Option String
  pub cursor_after : Option String
  pub high_water_mark : Option HighWaterMark

pub record IngestionOutcome : Type 0 where
  pub success : Bool
  pub error : String
  pub error_code : String
  pub retryable : Bool
  pub next_retry_at : Option ℕ
  pub waiting_for_review : Bool
  pub quality_decision : Option String
  pub orchestration_action : Option String
  pub top_rule_codes : List String

-- A result that is a mapping.
pub record Payload : Type 0 where
  pub outcome : Option String
  pub success : Bool
  pub waiting_for_review : Bool
  pub retryable : Option Bool
  pub error : Option String
  pub error_code : Option String
  pub next_retry_at : Option ℕ
  pub quality_decision : Option String
  pub orchestration_action : Option String
  pub source_file_id : Option String
  pub top_rule_codes : List String

-- A result that is an object, by the attributes it has; `status` is the status of its file record.
pub record RunResult : Type 0 where
  pub outcome : Option String
  pub status : Option String
  pub error : Option String
  pub error_code : Option String
  pub quality_decision : Option String
  pub orchestration_action : Option String
  pub top_rule_codes : List String

pub data IngestionResult : Type 0 where
  settled : IngestionOutcome → IngestionResult
  flag : Bool → IngestionResult
  mapping : Payload → IngestionResult
  object : RunResult → IngestionResult

abbrev default_error : String
default_error = "Source unit ingestion failed"

abbrev default_error_code : String
default_error_code = "source_unit_failed"

-- `_accepted_duplicate`
unfoldable pub accepted_duplicate : Option String → Bool
accepted_duplicate o = same_key o (some "FILE_DUPLICATE") || same_key o (some "FETCH_UNIT_REPLAY")

-- `_completed_status`
unfoldable completed_status : Option String → Bool
completed_status o = same_key o (some "COMPLETED") || same_key o (some "PARTIAL")

abbrev first_code : List String → String
first_code [] = "UNSPECIFIED"
first_code (c ∷ cs) = c

-- `_quality_review_reason`
unfoldable quality_review_reason : List String → Option String → String
quality_review_reason codes action =
    "quality_review:"
    ++ (if same_key action (some "HOLD_FOR_REVIEW")
        then "CONFLICTING_DUPLICATE"
        else first_code codes)

-- The error of an outcome whose result names none.
unfoldable error_or : Option String → Bool → List String → Option String → String
unfolding quality_review_reason
error_or error waiting codes action =
    get_or (if waiting then quality_review_reason codes action else default_error) error

unfoldable from_payload : Payload → IngestionOutcome
unfolding accepted_duplicate error_or
from_payload p =
    let quality_failed = same_key p.orchestration_action (some "FAIL") in
    let waiting =
      same_key p.outcome (some "WAITING_REVIEW")
      || (p.waiting_for_review || same_key p.orchestration_action (some "HOLD_FOR_REVIEW")) in
    record {
      success =
          (p.success || (accepted_duplicate p.outcome || same_key p.outcome (some "PARTIAL")))
          && not quality_failed;
      error = error_or p.error waiting p.top_rule_codes p.orchestration_action;
      error_code =
          if quality_failed then "quality_batch_fatal" else get_or default_error_code p.error_code;
      retryable = get_or true p.retryable;
      next_retry_at = p.next_retry_at;
      waiting_for_review = waiting;
      quality_decision = p.quality_decision;
      orchestration_action = p.orchestration_action;
      top_rule_codes = p.top_rule_codes;
    }

unfoldable from_run_result : RunResult → IngestionOutcome
unfolding accepted_duplicate completed_status error_or
from_run_result r =
    let quality_failed = same_key r.orchestration_action (some "FAIL") in
    let waiting =
      same_key r.outcome (some "WAITING_REVIEW")
      || same_key r.orchestration_action (some "HOLD_FOR_REVIEW") in
    record {
      success = (completed_status r.status || accepted_duplicate r.outcome) && not quality_failed;
      error = error_or r.error waiting r.top_rule_codes r.orchestration_action;
      error_code =
          if quality_failed
          then "quality_batch_fatal"
          else get_or "source_persist_error" r.error_code;
      retryable = true;
      next_retry_at = none;
      waiting_for_review = waiting;
      quality_decision = r.quality_decision;
      orchestration_action = r.orchestration_action;
      top_rule_codes = r.top_rule_codes;
    }

-- `from_result`
unfoldable pub from_result : IngestionResult → IngestionOutcome
unfolding from_payload from_run_result
from_result (settled o) = o
from_result (flag b) = record {
  success = b;
  error = default_error;
  error_code = default_error_code;
  retryable = true;
  next_retry_at = none;
  waiting_for_review = false;
  quality_decision = none;
  orchestration_action = none;
  top_rule_codes = [];
}
from_result (mapping p) = from_payload p
from_result (object r) = from_run_result r

-- `raw_outcome` of the orchestrator; an `IngestionOutcome` and a flag have none.
unfoldable pub raw_outcome : IngestionResult → Option String
raw_outcome (mapping p) = p.outcome
raw_outcome (object r) = r.outcome
raw_outcome _ = none

-- `source_file_id` of the orchestrator.
unfoldable pub source_file_id_of : IngestionResult → Option String
source_file_id_of (mapping p) = p.source_file_id
source_file_id_of _ = none
