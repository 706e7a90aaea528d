-- ===== src/Quality/Types.antt =====
-- The enumerations and records of src/domain/ingestion/quality.py, and how an evaluation infers its
-- outcome from its violations. `field`, `message` and the evidence of a violation do not take part in
-- any decision; the evidence values `expected` and `actual` are left out.
use reconciliation_ingestion.Prelude.{
  ℕ, String, Bool, true, false, ◌||◌, Option, List, [], ◌∷◌, any, every, if◌then◌else◌,
}

pub data QualityRuleCode : Type 0 where
  required_schema_path missing_required_source_column schema_config_drift : QualityRuleCode
  source_structure_unreadable config_validation missing_required_field malformed_row :
      QualityRuleCode
  invalid_amount negative_amount invalid_timestamp invalid_status : QualityRuleCode
  equivalent_duplicate conflicting_duplicate : QualityRuleCode

pub data QualityPhase : Type 0 where
  configuration file normalization validation persistence : QualityPhase

pub data QualitySeverity : Type 0 where
  info warning error fatal : QualitySeverity

pub data QualityOutcome : Type 0 where
  valid warning reject equivalent_duplicate conflicting_duplicate batch_fatal : QualityOutcome

pub data QualityDecision : Type 0 where
  pass review fail : QualityDecision

-- `.value` of a rule code.
unfoldable pub code_value : QualityRuleCode → String
code_value required_schema_path = "REQUIRED_SCHEMA_PATH"
code_value missing_required_source_column = "MISSING_REQUIRED_SOURCE_COLUMN"
code_value schema_config_drift = "SCHEMA_CONFIG_DRIFT"
code_value source_structure_unreadable = "SOURCE_STRUCTURE_UNREADABLE"
code_value config_validation = "CONFIG_VALIDATION"
code_value missing_required_field = "MISSING_REQUIRED_FIELD"
code_value malformed_row = "MALFORMED_ROW"
code_value invalid_amount = "INVALID_AMOUNT"
code_value negative_amount = "NEGATIVE_AMOUNT"
code_value invalid_timestamp = "INVALID_TIMESTAMP"
code_value invalid_status = "INVALID_STATUS"
code_value equivalent_duplicate = "EQUIVALENT_DUPLICATE"
code_value conflicting_duplicate = "CONFLICTING_DUPLICATE"

-- `.value` of an outcome.
unfoldable pub outcome_value : QualityOutcome → String
outcome_value valid = "VALID"
outcome_value warning = "WARNING"
outcome_value reject = "REJECT"
outcome_value equivalent_duplicate = "EQUIVALENT_DUPLICATE"
outcome_value conflicting_duplicate = "CONFLICTING_DUPLICATE"
outcome_value batch_fatal = "BATCH_FATAL"

pub record QualityViolation : Type 0 where
  pub code : QualityRuleCode
  pub phase : QualityPhase
  pub severity : QualitySeverity
  pub outcome : QualityOutcome
  pub field : Option String
  pub message : String
  pub row : Option ℕ
  pub trace : Option String

abbrev pub is_fatal : QualitySeverity → Bool
is_fatal fatal = true
is_fatal _ = false

abbrev pub is_warning_severity : QualitySeverity → Bool
is_warning_severity warning = true
is_warning_severity _ = false

abbrev pub is_batch_fatal : QualityOutcome → Bool
is_batch_fatal batch_fatal = true
is_batch_fatal _ = false

abbrev pub is_conflicting : QualityOutcome → Bool
is_conflicting conflicting_duplicate = true
is_conflicting _ = false

abbrev pub is_equivalent : QualityOutcome → Bool
is_equivalent equivalent_duplicate = true
is_equivalent _ = false

abbrev pub is_reject : QualityOutcome → Bool
is_reject reject = true
is_reject _ = false

abbrev pub is_warning : QualityOutcome → Bool
is_warning warning = true
is_warning _ = false

-- `code is QualityRuleCode.CONFLICTING_DUPLICATE`
abbrev pub is_conflicting_code : QualityRuleCode → Bool
is_conflicting_code conflicting_duplicate = true
is_conflicting_code _ = false

abbrev pub fatal_item : QualityViolation → Bool
fatal_item item = is_batch_fatal item.outcome || is_fatal item.severity

abbrev pub warning_item : QualityViolation → Bool
warning_item item = is_warning item.outcome || is_warning_severity item.severity

-- The ladder of `infer_outcome` over the answers of its tests on the violations.
unfoldable pub choose_outcome : QualityOutcome → Bool → Bool → Bool → Bool → Bool → QualityOutcome
choose_outcome given some_fatal some_conflict some_reject some_warning all_equivalent =
    if some_fatal || is_batch_fatal given
    then batch_fatal
    else if some_conflict || is_conflicting given
    then conflicting_duplicate
    else if is_reject given || some_reject
    then reject
    else if is_warning given || some_warning
    then warning
    else if is_equivalent given || all_equivalent
    then equivalent_duplicate
    else reject

-- `infer_outcome`: the outcome of an evaluation built with the given outcome and violations.
unfoldable pub infer_outcome : QualityOutcome → List QualityViolation → QualityOutcome
unfolding choose_outcome
infer_outcome given [] = given
infer_outcome given (v ∷ vs) =
    choose_outcome given (any fatal_item (v ∷ vs)) (any (λ i. is_conflicting i.outcome) (v ∷ vs))
      (any (λ i. is_reject i.outcome) (v ∷ vs)) (any warning_item (v ∷ vs))
      (every (λ i. is_equivalent i.outcome) (v ∷ vs))

-- The part of a `QualityEvaluation` that decisions read; `row_number` is `row_context["rowNumber"]`.
pub record QualityEvaluation : Type 0 where
  pub outcome : QualityOutcome
  pub violations : List QualityViolation
  pub row_number : Option ℕ

-- The model's constructor runs the validator.
unfoldable pub evaluation : QualityOutcome → List QualityViolation → Option ℕ → QualityEvaluation
unfolding infer_outcome
evaluation given vs row = record {
  outcome = infer_outcome given vs;
  violations = vs;
  row_number = row;
}

-- `is_valid`, of an evaluation and of a row outcome.
unfoldable pub is_valid : QualityOutcome → Bool
is_valid valid = true
is_valid warning = true
is_valid equivalent_duplicate = true
is_valid _ = false
