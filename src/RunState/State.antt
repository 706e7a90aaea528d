-- ===== src/RunState/State.antt =====
-- The counters and samples of `IngestionRunState` of src/pipeline/run_state.py.
use text.Mathlib.Text.{◌==◌ as str_eq}
use reconciliation_ingestion.Prelude.{
  ℕ, ◌+◌, String, List, [], ◌∷◌, ◌++◌, Option, none, some, ltb, length, any, get_or, if◌then◌else◌,
}
use reconciliation_ingestion.Counter.{Counter}
use reconciliation_ingestion.Quality.Types.{
  QualityOutcome, QualityDecision, QualityViolation, code_value, pass,
}
use reconciliation_ingestion.Quality.Policy.{OrchestrationAction, continue}

abbrev pub error_sample_limit : ℕ
error_sample_limit = 5

-- A serialized error by its keys `field` and `errorCode`; its texts are left out.
pub record ErrorEntry : Type 0 where
  pub field : Option String
  pub error_code : Option String

-- What the state reads of a `RowOutcome`; `data_container` is the row to persist.
pub record RowOutcome (Container : Type 0) : Type 0 where
  pub data_container : Option Container
  pub ingestion_key : Option String
  pub violations : List QualityViolation
  pub outcome : QualityOutcome

pub record IngestionRunState : Type 0 where
  pub total_rows : ℕ
  pub success_rows : ℕ
  pub failed_rows : ℕ
  pub duplicate_rows : ℕ
  pub rejected_rows : ℕ
  pub persistence_failed_rows : ℕ
  pub quarantined_rows : ℕ
  pub equivalent_duplicate_rows : ℕ
  pub conflicting_duplicate_rows : ℕ
  pub warning_rows : ℕ
  pub quality_rule_counts : Counter
  pub quality_outcome_counts : Counter
  pub quality_decision : QualityDecision
  pub orchestration_action : OrchestrationAction
  pub errors : List ErrorEntry
  pub ingestion_keys : List String
  pub error_count : ℕ
  pub error_samples_dropped : ℕ
  pub row_error_logs : ℕ
  pub error_fields : List String

abbrev pub fresh : IngestionRunState
fresh = record {
  total_rows = 0;
  success_rows = 0;
  failed_rows = 0;
  duplicate_rows = 0;
  rejected_rows = 0;
  persistence_failed_rows = 0;
  quarantined_rows = 0;
  equivalent_duplicate_rows = 0;
  conflicting_duplicate_rows = 0;
  warning_rows = 0;
  quality_rule_counts = [];
  quality_outcome_counts = [];
  quality_decision = pass;
  orchestration_action = continue;
  errors = [];
  ingestion_keys = [];
  error_count = 0;
  error_samples_dropped = 0;
  row_error_logs = 0;
  error_fields = [];
}

-- `total_rows += 1`; the caller reads the new count.
unfoldable pub record_row : IngestionRunState → IngestionRunState
record_row s = record s { total_rows = s.total_rows + 1 }

-- `set.add`, if the text is not empty.
abbrev add_field : Option String → List String → List String
add_field none fields = fields
add_field (some f) fields =
    if str_eq f "" then fields else if any (λ g. str_eq g f) fields then fields else f ∷ fields

unfoldable pub add_error : ErrorEntry → IngestionRunState → IngestionRunState
add_error e s =
    let t = record s {
      error_count = s.error_count + 1;
      error_fields = add_field e.field s.error_fields;
    } in
    if ltb (length s.errors) error_sample_limit
    then record t { errors = s.errors ++ (e ∷ []) }
    else record t { error_samples_dropped = s.error_samples_dropped + 1 }

unfoldable pub serialize_quality_violation : QualityViolation → ErrorEntry
serialize_quality_violation v = record { field = v.field; error_code = some (code_value v.code) }

unfoldable pub add_violations : List QualityViolation → IngestionRunState → IngestionRunState
add_violations [] s = s
add_violations (v ∷ vs) s = add_violations vs (add_error (serialize_quality_violation v) s)

unfoldable pub record_invalid_row : List QualityViolation → IngestionRunState → IngestionRunState
record_invalid_row vs s =
    add_violations vs
      (record s { failed_rows = s.failed_rows + 1; rejected_rows = s.rejected_rows + 1 })

unfoldable pub record_valid_row : Option String → IngestionRunState → IngestionRunState
record_valid_row key s = record s { ingestion_keys = s.ingestion_keys ++ (get_or "" key ∷ []) }
