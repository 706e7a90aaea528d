-- ===== src/Validation/Rules.antt =====
-- `Validator` of src/validators/validator.py: the rules of one canonical transaction, in their order. `shown` is the
-- text that formatting gives of a value; the evidence of a violation is left out.
use Prim.Native.String.{◌++◌ as ◌<>◌}
use reconciliation_ingestion.Prelude.{
  ℕ, String, Bool, true, false, ◌&&◌, not, Option, none, some, List, [], ◌∷◌, ◌++◌, any, str_eq,
  ltb, if◌then◌else◌,
}
use reconciliation_ingestion.Quarantine.Texts.{strip}
use reconciliation_ingestion.Quality.Types.{
  QualityRuleCode, QualityPhase, QualitySeverity, QualityOutcome, QualityViolation,
  QualityEvaluation, evaluation, infer_outcome, missing_required_field, invalid_amount,
  negative_amount, invalid_timestamp, invalid_status,
}

-- A `Decimal`: the sign, the coefficient and the exponent's size of a finite one.
pub data Decimal : Type 0 where
  finite : Bool → ℕ → ℕ → Decimal
  infinity not_a_number : Decimal

-- A value of a transaction's field, by the types that the rules tell apart.
pub data FieldValue : Type 0 where
  missing : FieldValue
  text other : String → FieldValue
  decimal : Decimal → FieldValue
  moment : ℕ → FieldValue

-- The fields that the rules read.
pub record Transaction : Type 0 where
  pub id : FieldValue
  pub currency : FieldValue
  pub amount : FieldValue
  pub status : FieldValue
  pub trans_date : FieldValue
  pub trace : Option String

-- `value is None or (isinstance(value, str) and value.strip() == "")`
unfoldable pub is_blank : FieldValue → Bool
unfolding strip
is_blank missing = true
is_blank (text s) = str_eq (strip s) ""
is_blank _ = false

abbrev pub is_missing : FieldValue → Bool
is_missing missing = true
is_missing _ = false

-- `_append`
unfoldable pub violation :
    QualityRuleCode → String → String → Option ℕ → Option String → QualityViolation
violation code field message row trace = record {
  code = code;
  phase = QualityPhase.validation;
  severity = QualitySeverity.error;
  outcome = QualityOutcome.reject;
  field = some field;
  message = message;
  row = row;
  trace = trace;
}

-- The violations of one test.
abbrev pub when : Bool → QualityViolation → List QualityViolation
when true v = v ∷ []
when false v = []

-- `_validate_required_fields`
unfoldable pub validate_required_fields :
    Transaction → Option ℕ → Option String → List QualityViolation
unfolding violation is_blank
validate_required_fields t row trace =
    when (is_blank t.id)
      (violation missing_required_field "id" "Required field 'id' is empty or missing." row trace)
    ++ (when (is_blank t.currency) (
          violation missing_required_field "currency"
            "Required field 'currency' is empty or missing." row trace)
        ++ (when (is_missing t.amount) (
              violation missing_required_field "amount" "Required field 'amount' is missing." row
                trace)
            ++ when (is_blank t.status) (
                violation missing_required_field "status" "Required field 'status' is missing." row
                  trace)))

-- `TransactionStatus(value)` finds a member.
abbrev pub is_transaction_status : String → Bool
is_transaction_status s = any (str_eq s) ("SUCCESS" ∷ "FAILED" ∷ "PENDING" ∷ "REVERSED" ∷ [])

abbrev context_row : Bool → Option ℕ → Option ℕ
context_row true row = row
context_row false row = none

-- `trace or self._value(txn, "trace")`
abbrev pub trace_of : Option String → Option String → Option String
trace_of none own = own
trace_of (some s) own = if str_eq s "" then own else some s

-- `_VALID_CONTEXT_FREE_EVALUATION`
abbrev valid_context_free : QualityEvaluation
valid_context_free = evaluation QualityOutcome.valid [] none

-- What `validate` returns on the violations that it collected.
unfoldable pub concluded : Bool → Option ℕ → List QualityViolation → QualityEvaluation
unfolding evaluation infer_outcome
concluded false row [] = valid_context_free
concluded true row [] = evaluation QualityOutcome.valid [] row
concluded include_context row (v ∷ vs) =
    evaluation QualityOutcome.reject (v ∷ vs) (context_row include_context row)

-- `amount < 0` of a finite amount.
abbrev pub is_negative : Bool → ℕ → Bool
is_negative sign coefficient = sign && ltb 0 coefficient

module _ (shown : FieldValue → String) where
  -- `_validate_decimal`
  unfoldable pub validate_decimal : FieldValue → Option ℕ → Option String → List QualityViolation
  unfolding violation
  validate_decimal missing row trace = []
  validate_decimal (decimal (finite sign coefficient exponent)) row trace =
      when (is_negative sign coefficient) (
        violation negative_amount "amount"
          ("Amount must be non-negative, got "
            <> (shown (decimal (finite sign coefficient exponent)) <> "."))
          row trace)
  validate_decimal (decimal _) row trace =
      violation invalid_amount "amount" "Amount must be a finite Decimal monetary value." row trace
      ∷ []
  validate_decimal _ row trace =
      violation invalid_amount "amount" "Amount must be a Decimal-compatible monetary value." row
        trace
      ∷ []

  -- `_validate_date`
  unfoldable pub validate_date : FieldValue → Option ℕ → Option String → List QualityViolation
  unfolding violation
  validate_date missing row trace = []
  validate_date (moment t) row trace = []
  validate_date _ row trace =
      violation invalid_timestamp "transDate" "transDate must be a datetime object." row trace ∷ []

  abbrev invalid_status_of : FieldValue → Option ℕ → Option String → QualityViolation
  invalid_status_of v row trace =
      violation invalid_status "status"
        ("Invalid status value '"
          <> (shown v <> "' — must be one of SUCCESS, FAILED, PENDING, REVERSED."))
        row trace

  -- `_validate_status`
  unfoldable pub validate_status : FieldValue → Option ℕ → Option String → List QualityViolation
  unfolding violation is_blank
  validate_status missing row trace = []
  validate_status (text s) row trace =
      when (not (is_blank (text s)) && not (is_transaction_status s))
        (invalid_status_of (text s) row trace)
  validate_status v row trace = invalid_status_of v row trace ∷ []

  -- The violations that `validate` collects.
  unfoldable pub row_violations : Transaction → Option ℕ → Option String → List QualityViolation
  unfolding validate_required_fields validate_decimal validate_date validate_status
  row_violations t row trace =
      validate_required_fields t row trace
      ++ (validate_decimal t.amount row trace
          ++ (validate_date t.trans_date row trace ++ validate_status t.status row trace))

  -- `validate`
  unfoldable pub validate : Transaction → Option ℕ → Option String → Bool → QualityEvaluation
  unfolding row_violations concluded
  validate t row trace include_context =
      concluded include_context row (row_violations t row (trace_of trace t.trace))
