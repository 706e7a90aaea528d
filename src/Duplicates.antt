-- ===== src/Duplicates.antt =====
-- src/domain/partner_transaction/duplicates.py: the typed result of one conflict-safe batch write.
use reconciliation_ingestion.Prelude.{
  ℕ, ◌+◌, String, Bool, true, false, not, ◌&&◌, ◌||◌, List, [], ◌∷◌, Option, none, length, any,
  every, count_if, ltb, ◌==◌,
}
use reconciliation_ingestion.Quality.Types.{
  QualityRuleCode, equivalent_duplicate, is_conflicting_code,
}

-- `row_context` of a detail holds the row number and the raw row, or is empty.
pub record RowContext (Row : Type 0) : Type 0 where
  pub row_number : Option ℕ
  pub raw_row : Option Row

abbrev pub no_context : {Row : Type 0} → RowContext Row
no_context = record { row_number = none; raw_row = none }

pub record DuplicateDetail (Row : Type 0) : Type 0 where
  pub identify : String
  pub ingestion_key : String
  pub duplicate_type : QualityRuleCode
  pub incoming_index : ℕ
  pub incoming_fingerprint : String
  pub existing_fingerprint : String
  pub row_context : RowContext Row

abbrev is_equivalent_code : QualityRuleCode → Bool
is_equivalent_code equivalent_duplicate = true
is_equivalent_code _ = false

-- `require_duplicate_rule`
unfoldable require_duplicate_rule : {Row : Type 0} → DuplicateDetail Row → Bool
require_duplicate_rule d =
    is_equivalent_code d.duplicate_type || is_conflicting_code d.duplicate_type

-- `timings_ms` is observability and takes no part in the accounting: it is left out.
pub record BatchWriteResult (Row : Type 0) : Type 0 where
  pub inserted : ℕ
  pub duplicates : ℕ
  pub equivalent_duplicates : ℕ
  pub conflicting_duplicates : ℕ
  pub failed : ℕ
  pub duplicate_details : List (DuplicateDetail Row)

module _ {Row : Type 0} where
  unfoldable pub attempted : BatchWriteResult Row → ℕ
  attempted r = r.inserted + r.duplicates + r.failed

  abbrev equivalent_detail : DuplicateDetail Row → Bool
  equivalent_detail d = is_equivalent_code d.duplicate_type

  abbrev conflicting_detail : DuplicateDetail Row → Bool
  conflicting_detail d = is_conflicting_code d.duplicate_type

  -- `len(set(indexes)) == len(indexes)`
  unfoldable unique_indexes : List (DuplicateDetail Row) → Bool
  unique_indexes [] = true
  unique_indexes (d ∷ ds) =
      not (any (λ e. e.incoming_index == d.incoming_index) ds) && unique_indexes ds

  -- `validate_duplicate_accounting`, `false` where it raises; the details have passed their own
  -- validator.
  unfoldable pub validate_duplicate_accounting : BatchWriteResult Row → Bool
  unfolding attempted unique_indexes require_duplicate_rule
  validate_duplicate_accounting r =
      every require_duplicate_rule r.duplicate_details
      && (r.equivalent_duplicates + r.conflicting_duplicates == r.duplicates
          && (length r.duplicate_details == r.duplicates
              && (count_if equivalent_detail r.duplicate_details == r.equivalent_duplicates
                  && (count_if conflicting_detail r.duplicate_details == r.conflicting_duplicates
                      && (unique_indexes r.duplicate_details
                          && not (
                              any (λ d. not (ltb d.incoming_index (attempted r)))
                                r.duplicate_details))))))
