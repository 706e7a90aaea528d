-- ===== src/RunState/DuplicateCounts.antt =====
-- The duplicate counters of src/pipeline/run_state.py against the accounting of
-- src/domain/partner_transaction/duplicates.py.
use reconciliation_ingestion.Prelude.{
  ℕ, suc, ◌+◌, Bool, true, false, List, [], ◌∷◌, length, count_if, ◌≡◌, refl, ap, arith, Bool-cases,
  inl, inr,
}
use reconciliation_ingestion.Quality.Types.{is_conflicting_code, evaluation, infer_outcome}
use reconciliation_ingestion.Duplicates.{
  BatchWriteResult, DuplicateDetail, validate_duplicate_accounting,
}
use reconciliation_ingestion.RunState.State.{IngestionRunState, add_error}
use reconciliation_ingestion.RunState.Defs.{
  duplicate_evaluation, record_details, record_quality_evaluation, record_quality, count_outcome,
  count_violations, advance_quality_disposition, record_batch_errors, add_result,
  record_batch_result,
}

-- The two duplicate counters.
abbrev pub counters : IngestionRunState → ℕ × ℕ
counters s = (s.equivalent_duplicate_rows, s.conflicting_duplicate_rows)

module _ {Row : Type 0} where
  abbrev conflicts : List (DuplicateDetail Row) → ℕ
  conflicts ds = count_if (λ d. is_conflicting_code d.duplicate_type) ds

  counters-conflict :
      (d : DuplicateDetail Row) (s : IngestionRunState)
      → is_conflicting_code d.duplicate_type ≡ true
      → counters (record_quality_evaluation (duplicate_evaluation d) s)
        ≡ (s.equivalent_duplicate_rows, s.conflicting_duplicate_rows + 1)
  unfolding record_quality_evaluation record_quality duplicate_evaluation evaluation infer_outcome
      count_outcome count_violations advance_quality_disposition
  counters-conflict d s e = rw e refl

  counters-equivalent :
      (d : DuplicateDetail Row) (s : IngestionRunState)
      → is_conflicting_code d.duplicate_type ≡ false
      → counters (record_quality_evaluation (duplicate_evaluation d) s)
        ≡ (s.equivalent_duplicate_rows + 1, s.conflicting_duplicate_rows)
  unfolding record_quality_evaluation record_quality duplicate_evaluation evaluation infer_outcome
      count_outcome count_violations advance_quality_disposition
  counters-equivalent d s e = rw e refl

  counters-record_batch_errors :
      (r : BatchWriteResult Row) (s : IngestionRunState)
      → (counters (record_batch_errors r s) ≡ counters s)
        × ((record_batch_errors r s).duplicate_rows ≡ s.duplicate_rows)
  unfolding record_batch_errors add_error
  counters-record_batch_errors r s = ground arith

  conflicts-cons :
      (d : DuplicateDetail Row) (ds : List (DuplicateDetail Row)) (b : Bool)
      → is_conflicting_code d.duplicate_type ≡ b
      → conflicts (d ∷ ds)
        ≡ (elim b as (λ _. ℕ) [ true ↦ suc (conflicts ds) | false ↦ conflicts ds ])
  conflicts-cons d ds b e =
      ap (λ x. (elim x as (λ _. ℕ) [ true ↦ suc (conflicts ds) | false ↦ conflicts ds ])) e

  counters-record_details :
      (ds : List (DuplicateDetail Row)) (s : IngestionRunState)
      → ((counters (record_details ds s)).0 + conflicts ds
          ≡ s.equivalent_duplicate_rows + length ds)
        × ((counters (record_details ds s)).1 ≡ s.conflicting_duplicate_rows + conflicts ds)
  unfolding record_details
  counters-record_details [] s = (omega arith, omega arith)
  counters-record_details (d ∷ ds) s =
      let t = record_quality_evaluation (duplicate_evaluation d) s in
      let rest = counters-record_details ds t in
      elim (Bool-cases (is_conflicting_code d.duplicate_type)) [
        | inl e ↦
            let now = counters-conflict d s e in
            let tally = conflicts-cons d ds true e in
            (
              omega (arith, rest.0, ap (λ x. x.0) now, tally),
              omega (arith, rest.1, ap (λ x. x.1) now, tally),
            )
        | inr e ↦
            let now = counters-equivalent d s e in
            let tally = conflicts-cons d ds false e in
            (
              omega (arith, rest.0, ap (λ x. x.0) now, tally),
              omega (arith, rest.1, ap (λ x. x.1) now, tally),
            )
      ]

  validated-counts :
      (r : BatchWriteResult Row)
      → validate_duplicate_accounting r ≡ true
      → (r.equivalent_duplicates + r.conflicting_duplicates ≡ r.duplicates)
        × (length r.duplicate_details ≡ r.duplicates)
        × (conflicts r.duplicate_details ≡ r.conflicting_duplicates)
  unfolding validate_duplicate_accounting
  validated-counts r v = ground arith

  -- A batch result that passes its validation is counted once in each way: the equivalent and the
  -- conflicting duplicates of the run grow by those that the result names.
  pub valid_result_is_counted :
      (r : BatchWriteResult Row) (s : IngestionRunState)
      → validate_duplicate_accounting r ≡ true
      → let t = record_batch_result r s in
        (t.equivalent_duplicate_rows ≡ s.equivalent_duplicate_rows + r.equivalent_duplicates)
        × (t.conflicting_duplicate_rows ≡ s.conflicting_duplicate_rows + r.conflicting_duplicates)
  unfolding record_batch_result add_result
  valid_result_is_counted r s v =
      let details = counters-record_details r.duplicate_details (add_result r s) in
      let errors =
        (counters-record_batch_errors r (record_details r.duplicate_details (add_result r s))).0 in
      let accounts = validated-counts r v in
      (
        omega (arith, ap (λ x. x.0) errors, details.0, accounts.0, accounts.1, accounts.2),
        omega (arith, ap (λ x. x.1) errors, details.1, accounts.2),
      )
