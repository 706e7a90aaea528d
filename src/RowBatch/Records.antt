-- ===== src/RowBatch/Records.antt =====
-- The quarantine record that the coordinator of src/pipeline/row_batch_coordinator.py builds for a row
-- that it does not persist, and the file metadata that it carries.
use reconciliation_ingestion.Prelude.{ℕ, String, List, Option}
use reconciliation_ingestion.RunState.State.{ErrorEntry}

pub data QuarantinePhase : Type 0 where
  normalization validation batch : QuarantinePhase

-- `RowBatchContext`
pub record RowBatchContext : Type 0 where
  pub file_id : String
  pub partner : String
  pub fetch_unit_key : Option String
  pub config_version : Option String
  pub review_packet_id : Option String
  pub post_approval_run_id : Option String

-- What the coordinator puts in an `IngestionQuarantineRecord`.
pub record QuarantineEntry : Type 0 where
  pub context : RowBatchContext
  pub row_number : Option ℕ
  pub ingestion_key : Option String
  pub errors : List ErrorEntry
  pub phase : QuarantinePhase
  pub incoming_fingerprint : Option String
  pub existing_fingerprint : Option String
