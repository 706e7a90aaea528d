-- ===== src/Ingestion/Types.antt =====
-- `ReconciliationFile` of src/domain/ingestion/models.py, the identity of a fetched unit, and the results of
-- src/application/ingestion/contracts.py. The stage summary and the paths are passed on unread.
use reconciliation_ingestion.Prelude.{ℕ, String, Bool, Option, List}
use reconciliation_ingestion.Quality.Types.{QualityDecision}
use reconciliation_ingestion.Quality.Policy.{OrchestrationAction}
use reconciliation_ingestion.Quality.Summary.{QualitySummary}
use reconciliation_ingestion.RunState.State.{ErrorEntry}
use reconciliation_ingestion.Scope.Files.{FileScope}

pub data ProcessingStatus : Type 0 where
  pending processing completed partial failed : ProcessingStatus

-- The keys of `fetch_unit_metadata` that the code reads.
pub record FetchUnit : Type 0 where
  pub source_unit_key : Option String
  pub source_unit_keys : List String
  pub source_endpoint : Option String
  pub page : Option String
  pub cursor : Option String
  pub window_start : Option String
  pub window_end : Option String

pub record ReconciliationFile : Type 0 where
  pub id : String
  pub partner : String
  pub file_name : String
  pub file_hash : String
  pub file_type : String
  pub reconciliation_date : String
  pub processing_status : ProcessingStatus
  pub total_rows : ℕ
  pub success_rows : ℕ
  pub failed_rows : ℕ
  pub duplicate_rows : ℕ
  pub stage_summary : String
  pub config_version : Option String
  pub fetch_unit_key : Option String
  pub fetch_unit_metadata : Option FetchUnit
  pub source_file_path : String
  pub scope : FileScope

-- What is asked of the pipeline: the fields of `ProcessFileCommand` that are read.
pub record ProcessFileCommand : Type 0 where
  pub file_path : String
  pub partner : String
  pub workflow_type : String
  pub file_type : String
  pub reconciliation_date : String
  pub config_version : Option String
  pub fetch_unit_metadata : Option FetchUnit
  pub enable_config_health_check : Bool

pub record FileClaimResult : Type 0 where
  pub file_record : ReconciliationFile
  pub created : Bool
  pub duplicate_code : Option String

pub record ProcessingStats : Type 0 where
  pub total_rows : ℕ
  pub success_rows : ℕ
  pub failed_rows : ℕ
  pub duplicate_rows : ℕ

pub data RunOutcome : Type 0 where
  ingested partial file_duplicate fetch_unit_replay waiting_review failed : RunOutcome

pub record IngestionResult : Type 0 where
  pub file_record : Option ReconciliationFile
  pub stats : ProcessingStats
  pub errors : List ErrorEntry
  pub outcome : RunOutcome
  pub duplicate_code : Option String
  pub ingestion_keys : List String
  pub quality_decision : QualityDecision
  pub quality_summary : QualitySummary
  pub orchestration_action : OrchestrationAction
  pub error_fields : List String
