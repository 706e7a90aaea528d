-- ===== src/Examples/Validated.antt =====
-- The rules of src/validators/validator.py on concrete transactions.
use reconciliation_ingestion.Prelude.{String, true, false, none, some, List, [], ◌∷◌, ◌≡◌, refl}
use reconciliation_ingestion.Quality.Types.{
  QualityOutcome, QualityViolation, QualityRuleCode, missing_required_field, negative_amount,
  invalid_timestamp,
}
use reconciliation_ingestion.Validation.Rules.{
  FieldValue, Transaction, finite, text, decimal, moment, validate, row_violations, is_blank,
}
use reconciliation_ingestion.Validation.Verdict.{is_clean, verdict_is_clean}

abbrev shown : FieldValue → String
shown v = "-1.00"

-- A refund with a negative amount, a date as text and no currency.
abbrev refund : Transaction
refund = record {
  id = text "T-1";
  currency = text "  ";
  amount = decimal (finite true 100 2);
  status = text "REVERSED";
  trans_date = text "2026-01-02";
  trace = some "T-1";
}

abbrev paid : Transaction
paid = record {
  id = text "T-2";
  currency = text "VND";
  amount = decimal (finite false 100 2);
  status = text "SUCCESS";
  trans_date = moment 1767312000;
  trace = none;
}

abbrev codes : List QualityViolation → List QualityRuleCode
codes [] = []
codes (v ∷ vs) = v.code ∷ codes vs

refund-codes :
    codes (row_violations shown refund (some 4) none)
    ≡ (missing_required_field ∷ negative_amount ∷ invalid_timestamp ∷ [])
unfolding row_violations
refund-codes = refl

paid_is_valid : (validate shown paid (some 5) none true).outcome ≡ QualityOutcome.valid
unfolding validate
paid_is_valid = refl

verdict_is_clean_example :
    (validate shown refund (some 4) (some "T-1") false).outcome ≡ QualityOutcome.reject
unfolding is_clean is_blank
verdict_is_clean_example = verdict_is_clean shown refund (some 4) (some "T-1") false
