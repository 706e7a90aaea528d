-- ===== src/Resolution/Ports.antt =====
-- The request and the collaborators of src/application/ingestion/quarantine_service.py, over a world `S` that they
-- change, and `resolve_reprocess_input` of src/application/ingestion/quarantine_reprocessing.py. `C` is the type
-- of the canonical rows.
use reconciliation_ingestion.Prelude.{ℕ, String, Bool, List, Option, none, some, or_else}
use reconciliation_ingestion.Result.{err, value_error, Exec, pure, lift, ◌>>=◌}
use reconciliation_ingestion.Quarantine.Values.{Value}
use reconciliation_ingestion.Quarantine.Types.{
  IngestionQuarantineRecord, QuarantineResolutionEvent, QuarantineStatus, QuarantineAction,
  reprocess, non_empty,
}
use reconciliation_ingestion.Quarantine.Updates.{Evidence}
use reconciliation_ingestion.Quarantine.Repository.{Reservation}
use reconciliation_ingestion.Resolution.Answers.{RowIssue}

pub data ReprocessMode : Type 0 where
  replay_source_row corrected_row accept_existing reject : ReprocessMode

pub record ReprocessRequest : Type 0 where
  pub record_id : String
  pub operator_id : String
  pub action_id : String
  pub expected_status : QuarantineStatus
  pub mode : ReprocessMode
  pub corrected_row : Option Value
  pub mapping_version : Option String
  pub expected_existing_fingerprint : Option String
  pub reason : Option String

-- `_action_for`
unfoldable pub action_for : ReprocessMode → QuarantineAction
action_for ReprocessMode.accept_existing = QuarantineAction.accept_existing
action_for ReprocessMode.reject = QuarantineAction.reject
action_for _ = reprocess

pub record ResolvedInput : Type 0 where
  pub row : Option Value
  pub origin : String
  pub mapping_version : Option String
  pub row_number : Option ℕ

-- What `_processed_payload` reads of a processed row.
pub record Processed (C : Type 0) : Type 0 where
  pub is_valid : Bool
  pub data_container : Option C
  pub errors : List RowIssue

-- What the service reads of the result of a write.
pub record WriteCounts : Type 0 where
  pub conflicting_duplicates : ℕ
  pub equivalent_duplicates : ℕ
  pub failed : ℕ

-- The arguments of the audit recorder.
pub record AuditEntry : Type 0 where
  pub action : String
  pub record_id : String
  pub partner : String
  pub source_file_id : String
  pub source_unit_key : Option String
  pub error_code : String
  pub attempt : ℕ
  pub actor : String
  pub reason : String
  pub action_id : Option String
  pub previous_status : Option QuarantineStatus
  pub new_status : Option QuarantineStatus
  pub outcome : Option String

-- The repository, the readers of rows and the other collaborators that the service is made with. Where there is
-- no recorder, `audit` does nothing; where there is no row processor or writer, `process` or `persist` raises.
pub record Ports (S C : Type 0) : Type 0 where
  pub find_action : String → String → Exec S (Option QuarantineResolutionEvent)
  pub find_by_id : String → Exec S (Option IngestionQuarantineRecord)
  pub claim : String → String → String → Exec S (Option IngestionQuarantineRecord)
  pub reclaim_expired_claim : String → Exec S (Option IngestionQuarantineRecord)
  pub reserve_action : String → String → String → QuarantineAction → Exec S Reservation
  pub release_for_retry : String → String → Evidence → Exec S Bool
  pub resolve : String → QuarantineStatus → String → QuarantineAction → Evidence → Exec S Bool
  pub escalate :
      String
      → String
      → String
      → QuarantineStatus
      → String
      → Exec S (Option IngestionQuarantineRecord)
  pub read_source_row : String → ℕ → Exec S (Option Value)
  pub read_raw_page_row : String → ℕ → Exec S (Option Value)
  pub process :
      IngestionQuarantineRecord → ReprocessRequest → Option Value → ℕ → Exec S (Processed C)
  pub persist : C → Exec S WriteCounts
  pub existing_fingerprint : Option (IngestionQuarantineRecord → Exec S (Option String))
  pub audit : AuditEntry → Exec S (Unit {0})
  pub now : S → ℕ

module _ {S : Type 0} where
  -- `_read_row`
  unfoldable read_row :
      (String → ℕ → Exec S (Option Value)) → Option String → Option ℕ → Exec S (Option Value)
  read_row read none row_number = pure none
  read_row read (some key) none = pure none
  read_row read (some key) (some n) = read key n

  abbrev no_row : Exec S ResolvedInput
  no_row = lift (
      err
        (value_error "No authoritative source row is available for replay; provide correctedRow."))

  abbrev input_of :
      IngestionQuarantineRecord
      → ReprocessRequest
      → String
      → Exec S ResolvedInput
      → Option Value
      → Exec S ResolvedInput
  input_of d r origin otherwise none = otherwise
  input_of d r origin otherwise (some row) = pure (record {
    row = some row;
    origin = origin;
    mapping_version = or_else (non_empty r.mapping_version) d.config_version;
    row_number = d.row_number;
  })

  abbrev corrected_input :
      IngestionQuarantineRecord → ReprocessRequest → Option Value → Exec S ResolvedInput
  corrected_input d r none =
      lift (err (value_error "correctedRow is required for corrected-row reprocess"))
  corrected_input d r (some row) = pure (record {
    row = some row;
    origin = "CORRECTED_ROW";
    mapping_version = r.mapping_version;
    row_number = d.row_number;
  })

  -- `resolve_reprocess_input`; a rejection never comes here.
  abbrev input_for :
      (String → ℕ → Exec S (Option Value))
      → (String → ℕ → Exec S (Option Value))
      → IngestionQuarantineRecord
      → ReprocessRequest
      → ReprocessMode
      → Exec S ResolvedInput
  input_for source raw_page d r ReprocessMode.accept_existing = pure (record {
    row = none;
    origin = "ACCEPT_EXISTING";
    mapping_version = r.mapping_version;
    row_number = d.row_number;
  })
  input_for source raw_page d r ReprocessMode.corrected_row = corrected_input d r r.corrected_row
  input_for source raw_page d r _ =
      read_row source (some d.source_file_id) d.row_number
      >>= input_of d r "AUTHORITATIVE_SOURCE_FILE" (
          read_row raw_page d.source_unit_key d.row_number
          >>= input_of d r "STAGED_RAW_PAGE" no_row)

  unfoldable pub resolve_reprocess_input :
      (String → ℕ → Exec S (Option Value))
      → (String → ℕ → Exec S (Option Value))
      → IngestionQuarantineRecord
      → ReprocessRequest
      → Exec S ResolvedInput
  unfolding read_row ◌>>=◌
  resolve_reprocess_input source raw_page d r = input_for source raw_page d r r.mode
