-- ===== src/Resolution/Answers.antt =====
-- The answers of src/application/ingestion/quarantine_service.py: what an operator is told, and the counters of an
-- operation.
use reconciliation_ingestion.Prelude.{
  ℕ, String, Bool, false, Option, none, some, List, [], ◌∷◌, any, str_eq, or_else, if◌then◌else◌,
}
use reconciliation_ingestion.Quarantine.Values.{
  Value, Entries, Items, no_items, item, string, object, entry, no_entries,
}
use reconciliation_ingestion.Quarantine.Types.{
  IngestionQuarantineRecord, QuarantineStatus, QuarantineAction, QuarantinePriority, RowError,
  code_of, non_empty,
}

-- The dictionary of `serialize_quarantine_counters`, whose `persistenceFailedRows` are the failed rows.
pub record Counters : Type 0 where
  pub input_rows : ℕ
  pub persisted_rows : ℕ
  pub rejected_rows : ℕ
  pub duplicate_rows : ℕ
  pub failed_rows : ℕ
  pub quarantined_rows : ℕ

abbrev one_row : ℕ → ℕ → ℕ → ℕ → Counters
one_row persisted rejected duplicate failed = record {
  input_rows = 1;
  persisted_rows = persisted;
  rejected_rows = rejected;
  duplicate_rows = duplicate;
  failed_rows = failed;
  quarantined_rows = 0;
}

abbrev pub rejected_outcomes : List String
rejected_outcomes = "VALIDATION_FAILED" ∷ "REJECTED" ∷ []

abbrev pub duplicate_outcomes : List String
duplicate_outcomes = "CONFLICT_REMAINS" ∷ "EQUIVALENT_DUPLICATE" ∷ "ACCEPTED_EXISTING" ∷ []

abbrev pub failed_outcomes : List String
failed_outcomes =
    "RETRYABLE_FAILURE" ∷ "SOURCE_EVIDENCE_UNAVAILABLE" ∷ "CORRECTED_ROW_REQUIRED"
    ∷ "FINGERPRINT_MISMATCH" ∷ "FINGERPRINT_UNAVAILABLE" ∷ []

abbrev pub is_one_of : String → List String → Bool
is_one_of s ts = any (str_eq s) ts

-- `_operation_counters`
unfoldable pub operation_counters : String → Counters
operation_counters outcome =
    if is_one_of outcome rejected_outcomes
    then one_row 0 1 0 0
    else if is_one_of outcome duplicate_outcomes
    then one_row 0 0 1 0
    else if is_one_of outcome failed_outcomes
    then one_row 0 0 0 1
    else one_row 1 0 0 0

-- One error of a processed row.
pub record RowIssue : Type 0 where
  pub reason : Option String
  pub message : Option String
  pub error : Option String

abbrev issue_entry : String → Option String → Entries → Entries
issue_entry k none es = es
issue_entry k (some s) es = entry k (string s) es

abbrev issue_value : RowIssue → Value
issue_value i = object (
    issue_entry "reason" i.reason
      (issue_entry "message" i.message (issue_entry "error" i.error no_entries)))

abbrev pub issue_values : List RowIssue → Items
issue_values [] = no_items
issue_values (i ∷ is) = item (issue_value i) (issue_values is)

-- `_first_error`
unfoldable pub first_error : List RowIssue → Option String
first_error [] = none
first_error (i ∷ is) =
    let rest = first_error is in
    or_else (or_else (non_empty i.reason) (or_else (non_empty i.message) (non_empty i.error))) rest

-- `_record_error_code`
unfoldable pub record_error_code : List RowError → String
unfolding code_of
record_error_code [] = "UNSPECIFIED"
record_error_code (e ∷ es) =
    let rest = record_error_code es in elim (non_empty (code_of e)) [ none ↦ rest | some c ↦ c ]

-- `QuarantineResolutionResult`; empty counters are `none`.
pub record ResolutionResult : Type 0 where
  pub record_id : String
  pub success : Bool
  pub status : Option QuarantineStatus
  pub outcome : String
  pub action : QuarantineAction
  pub reason : Option String
  pub errors : List RowIssue
  pub quality_counters : Option Counters
  pub failure_classification : Option String
  pub action_id : Option String
  pub previous_status : Option QuarantineStatus
  pub attempt_count : Option ℕ
  pub source_evidence_available : Option Bool
  pub escalation_level : Option ℕ
  pub claimed_by : Option String
  pub priority : Option QuarantinePriority
  pub review_due_at : Option ℕ

-- A result with the defaults of its fields.
abbrev pub plain_result :
    String → Bool → Option QuarantineStatus → String → QuarantineAction → ResolutionResult
plain_result record_id success status outcome action = record {
  record_id = record_id;
  success = success;
  status = status;
  outcome = outcome;
  action = action;
  reason = none;
  errors = [];
  quality_counters = none;
  failure_classification = none;
  action_id = none;
  previous_status = none;
  attempt_count = none;
  source_evidence_available = none;
  escalation_level = none;
  claimed_by = none;
  priority = none;
  review_due_at = none;
}

-- `_missing_record`
unfoldable pub missing_record : String → QuarantineAction → ResolutionResult
missing_record record_id action =
    record (plain_result record_id false none "RECORD_NOT_FOUND" action) {
      reason = some "Quarantine record was not found.";
    }

-- `_stale_record`
unfoldable pub stale_record : IngestionQuarantineRecord → QuarantineAction → ResolutionResult
stale_record d action = record (plain_result d.id false (some d.status) "STALE_STATUS" action) {
  reason = some "Quarantine record status no longer matches the expected status.";
  previous_status = some d.status;
  attempt_count = some d.attempt_count;
  escalation_level = some d.escalation_level;
}

-- A refusal that tells the state of the record.
abbrev pub refusal :
    String
    → String
    → QuarantineAction
    → String
    → String
    → IngestionQuarantineRecord
    → ResolutionResult
refusal record_id outcome action reason action_id d =
    record (plain_result record_id false (some d.status) outcome action) {
      reason = some reason;
      action_id = some action_id;
      previous_status = some d.status;
      attempt_count = some d.attempt_count;
      escalation_level = some d.escalation_level;
    }
