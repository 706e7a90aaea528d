-- ===== src/RunState/Disposition.antt =====
-- The disposition that the run state advances row by row, against the one that its counts give.
use reconciliation_ingestion.Prelude.{
  sym, ap, ◌∙◌, ◌+◌, Bool, true, ◌||◌, List, [], ◌∷◌, ◌≡◌, refl, arith, if◌then◌else◌, is_some,
  Bool-cases, inl, inr,
}
use reconciliation_ingestion.Counter.{get_count}
use reconciliation_ingestion.Quality.Types.{
  QualityOutcome, QualityViolation, QualityEvaluation, is_conflicting_code,
}
use reconciliation_ingestion.Quality.Summary.{from_counts}
use reconciliation_ingestion.Quality.Policy.{
  OrchestrationAction, continue, hold_for_review, orchestration_action_for, is_fail,
}
use reconciliation_ingestion.Quality.Laws.{Seen, seen, positive, decision_of, decide-seen}
use reconciliation_ingestion.Duplicates.{BatchWriteResult, DuplicateDetail}
use reconciliation_ingestion.RunState.State.{
  IngestionRunState, RowOutcome, fresh, add_error, record_valid_row, record_invalid_row,
}
use reconciliation_ingestion.RunState.Defs.{
  record_quality, record_quality_evaluation, record_row_outcome, note_row, record_batch_result,
  record_batch_errors, record_details, duplicate_evaluation, quality_summary, add_result,
}
use reconciliation_ingestion.RunState.Advance.{
  Agrees-advanced, disposition-record_quality, disposition-add_violations, action_of, Agrees,
  disposition, IsCoherent,
}

-- What a run records: the outcome of a row, an evaluation of the file, or the result of a batch.
pub data Event (C Row : Type 0) : Type 0 where
  row : RowOutcome C → Event C Row
  evaluated : QualityEvaluation → Event C Row
  batch : BatchWriteResult Row → Event C Row

module _ {C Row : Type 0} where
  unfoldable pub record_event : Event C Row → IngestionRunState → IngestionRunState
  record_event (row r) s = record_row_outcome r s
  record_event (evaluated e) s = record_quality_evaluation e s
  record_event (batch r) s = record_batch_result r s

  unfoldable pub record_events : List (Event C Row) → IngestionRunState → IngestionRunState
  record_events [] s = s
  record_events (e ∷ es) s = record_events es (record_event e s)

  -- The rows and evaluations recorded are coherent. A batch needs no hypothesis.
  abbrev AreCoherent : List (Event C Row) → Type 0
  AreCoherent [] = Unit {0}
  AreCoherent (row r ∷ es) = IsCoherent r.outcome r.violations × AreCoherent es
  AreCoherent (evaluated e ∷ es) = IsCoherent e.outcome e.violations × AreCoherent es
  AreCoherent (batch r ∷ es) = AreCoherent es

disposition-note_row :
    {C : Type 0} (r : RowOutcome C) (s : IngestionRunState)
    → disposition (note_row r s) ≡ disposition s
unfolding note_row record_valid_row record_invalid_row
disposition-note_row r s = ground (
  arith,
  disposition-add_violations r.violations (record_valid_row r.ingestion_key s),
  disposition-add_violations r.violations
      (record s { failed_rows = s.failed_rows + 1; rejected_rows = s.rejected_rows + 1 }),
)

Agrees-record_quality :
    (o : QualityOutcome) (vs : List QualityViolation) (w : Bool) (s : IngestionRunState)
    → IsCoherent o vs
    → Agrees (disposition s)
    → Agrees (disposition (record_quality o vs w s))
Agrees-record_quality o vs w s c a =
    rw disposition-record_quality (Agrees-advanced o vs (disposition s) c a)

disposition-record_batch_errors :
    {Row : Type 0} (r : BatchWriteResult Row) (s : IngestionRunState)
    → disposition (record_batch_errors r s) ≡ disposition s
unfolding record_batch_errors add_error
disposition-record_batch_errors r s = ground arith

-- The evaluation of a duplicate is coherent, whatever its type.
duplicate_evaluation-IsCoherent :
    {Row : Type 0} (d : DuplicateDetail Row)
    → IsCoherent (duplicate_evaluation d).outcome (duplicate_evaluation d).violations
unfolding duplicate_evaluation
duplicate_evaluation-IsCoherent d = elim (Bool-cases (is_conflicting_code d.duplicate_type)) [
  | inl e ↦ rw e tt
  | inr e ↦ rw e refl
]

Agrees-record_details :
    {Row : Type 0} (ds : List (DuplicateDetail Row)) (s : IngestionRunState)
    → Agrees (disposition s)
    → Agrees (disposition (record_details ds s))
unfolding record_details record_quality_evaluation
Agrees-record_details [] s a = a
Agrees-record_details (d ∷ ds) s a =
    let e = duplicate_evaluation d in
    Agrees-record_details ds (record_quality_evaluation e s) (
      Agrees-record_quality e.outcome e.violations (is_some e.row_number) s
        (duplicate_evaluation-IsCoherent d) a)

Agrees-record_batch_result :
    {Row : Type 0} (r : BatchWriteResult Row) (s : IngestionRunState)
    → Agrees (disposition s)
    → Agrees (disposition (record_batch_result r s))
unfolding record_batch_result
Agrees-record_batch_result r s a =
    rw disposition-record_batch_errors
      (Agrees-record_details r.duplicate_details (add_result r s) a)

Agrees-record_row_outcome :
    {C : Type 0} (r : RowOutcome C) (s : IngestionRunState)
    → IsCoherent r.outcome r.violations
    → Agrees (disposition s)
    → Agrees (disposition (record_row_outcome r s))
unfolding record_row_outcome
Agrees-record_row_outcome r s c a =
    Agrees-record_quality r.outcome r.violations true (note_row r s) c (rw disposition-note_row a)

is_fail-decision_of : (r : Bool) (s : Seen) → is_fail (decision_of r s) ≡ s.fatal
is_fail-decision_of r s = ground arith

orchestration_action_for-quality_summary :
    (s : IngestionRunState)
    → orchestration_action_for (quality_summary s)
      ≡ action_of
          (positive "CONFLICTING_DUPLICATE" s.quality_rule_counts)
          (seen s.quality_outcome_counts)
unfolding orchestration_action_for quality_summary from_counts
orchestration_action_for-quality_summary s =
    ap
      (λ b.
        if b
        then OrchestrationAction.fail
        else if positive "CONFLICTING_DUPLICATE" s.quality_rule_counts
            || positive "CONFLICTING_DUPLICATE" s.quality_outcome_counts
        then hold_for_review
        else continue)
      (is_fail-decision_of (positive "CONFLICTING_DUPLICATE" s.quality_rule_counts)
        (seen s.quality_outcome_counts))

module _ {C Row : Type 0} where
  Agrees-record_events :
      (es : List (Event C Row)) (s : IngestionRunState)
      → AreCoherent es
      → Agrees (disposition s)
      → Agrees (disposition (record_events es s))
  unfolding record_events record_event record_quality_evaluation
  Agrees-record_events [] s c a = a
  Agrees-record_events (row r ∷ es) s c a =
      Agrees-record_events es (record_row_outcome r s) c.1 (Agrees-record_row_outcome r s c.0 a)
  Agrees-record_events (evaluated e ∷ es) s c a =
      Agrees-record_events es (record_quality_evaluation e s) c.1
        (Agrees-record_quality e.outcome e.violations (is_some e.row_number) s c.0 a)
  Agrees-record_events (batch r ∷ es) s c a =
      Agrees-record_events es (record_batch_result r s) c (Agrees-record_batch_result r s a)

  -- Whatever rows, evaluations and batch results a new run records, where a violation with the conflict
  -- code comes only with a VALID, CONFLICTING_DUPLICATE or BATCH_FATAL outcome, the decision that the
  -- run has advanced step by step is the decision of the summary of its counts, and its action is the
  -- one that the quality policy gives for that summary.
  pub disposition_refines_summary :
      (es : List (Event C Row))
      → AreCoherent es
      → let s = record_events es fresh in
        (s.quality_decision ≡ (quality_summary s).decision)
        × (s.orchestration_action ≡ orchestration_action_for (quality_summary s))
  unfolding quality_summary from_counts get_count
  disposition_refines_summary es c =
      let s = record_events es fresh in
      let a =
        Agrees-record_events es fresh c (record { decision_agrees = refl; action_agrees = refl }) in
      (
        a.decision_agrees ∙ sym (decide-seen s.quality_rule_counts s.quality_outcome_counts),
        a.action_agrees ∙ sym (orchestration_action_for-quality_summary s),
      )
