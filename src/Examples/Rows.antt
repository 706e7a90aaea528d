-- ===== src/Examples/Rows.antt =====
-- Concrete rows, outcomes and batches: src/domain/ingestion/quality.py, src/pipeline/run_state.py and
-- src/pipeline/row_batch_coordinator.py.
use mathlib.Core.List.{Permᴰ}
use reconciliation_ingestion.Prelude.{◌≤◌, String, List, [], ◌∷◌, none, some, length, ◌≡◌, refl}
use reconciliation_ingestion.Quality.Types.{
  QualityOutcome, QualityViolation, QualityEvaluation, invalid_amount, validation, error,
  evaluation, infer_outcome, conflicting_duplicate,
}
use reconciliation_ingestion.Quality.Founded.{strictness, asked_by, IsFounded}
use reconciliation_ingestion.Quality.Outcome.{infer_outcome_judges}
use reconciliation_ingestion.Quality.Laws.{from_evaluations_decision, asked_decision}
use reconciliation_ingestion.Quality.Summary.{from_evaluations}
use reconciliation_ingestion.Quality.Policy.{orchestration_action_for}
use reconciliation_ingestion.Duplicates.{BatchWriteResult, DuplicateDetail, no_context}
use reconciliation_ingestion.RunState.State.{fresh}
use reconciliation_ingestion.RunState.Defs.{quality_summary}
use reconciliation_ingestion.Prelude.{arith}
use reconciliation_ingestion.Duplicates.{attempted}
use reconciliation_ingestion.Result.{ok, Returns}
use reconciliation_ingestion.RowBatch.Coordinator.{Collaborators, run}
use reconciliation_ingestion.RowBatch.Accounting.{Settled, start}
use reconciliation_ingestion.RowBatch.Returns.{IsReliable, run_settles_every_row}
use reconciliation_ingestion.RunState.Disposition.{
  Event, row, batch, record_events, disposition_refines_summary,
}

abbrev bad_amount : QualityViolation
bad_amount = record {
  code = invalid_amount;
  phase = validation;
  severity = error;
  outcome = QualityOutcome.reject;
  field = some "amount";
  message = "Invalid amount.";
  row = some 3;
  trace = none;
}

abbrev fatal_row : QualityViolation
fatal_row = record bad_amount { outcome = QualityOutcome.batch_fatal }

infer_outcome_judges_example :
    (strictness (asked_by bad_amount)
      ≤ strictness (infer_outcome QualityOutcome.valid (bad_amount ∷ fatal_row ∷ [])))
    × IsFounded QualityOutcome.valid
        (bad_amount ∷ fatal_row ∷ [])
        (infer_outcome QualityOutcome.valid (bad_amount ∷ fatal_row ∷ []))
    × (infer_outcome
          (infer_outcome QualityOutcome.valid (bad_amount ∷ fatal_row ∷ []))
          (bad_amount ∷ fatal_row ∷ [])
        ≡ infer_outcome QualityOutcome.valid (bad_amount ∷ fatal_row ∷ []))
    × (infer_outcome QualityOutcome.valid (bad_amount ∷ fatal_row ∷ [])
        ≡ infer_outcome QualityOutcome.valid (fatal_row ∷ bad_amount ∷ []))
infer_outcome_judges_example =
    infer_outcome_judges QualityOutcome.valid [] (fatal_row ∷ []) (fatal_row ∷ bad_amount ∷ [])
      bad_amount (Permᴰ.swap refl refl)

abbrev two_evaluations : List QualityEvaluation
two_evaluations =
    evaluation QualityOutcome.valid (bad_amount ∷ []) (some 3)
    ∷ evaluation QualityOutcome.valid [] none
    ∷ []

from_evaluations_decision_example :
    ((from_evaluations two_evaluations).decision ≡ asked_decision two_evaluations)
    × (length (from_evaluations two_evaluations).top_rule_codes ≤ 10)
from_evaluations_decision_example = from_evaluations_decision two_evaluations

abbrev conflict : DuplicateDetail String
conflict = record {
  identify = "42";
  ingestion_key = "k1";
  duplicate_type = conflicting_duplicate;
  incoming_index = 1;
  incoming_fingerprint = "a";
  existing_fingerprint = "b";
  row_context = no_context;
}

abbrev two_written : BatchWriteResult String
two_written = record {
  inserted = 1;
  duplicates = 1;
  equivalent_duplicates = 0;
  conflicting_duplicates = 1;
  failed = 0;
  duplicate_details = conflict ∷ [];
}

abbrev some_events : List (Event String String)
some_events =
    row (record {
      data_container = none;
      ingestion_key = some "k0";
      violations = bad_amount ∷ [];
      outcome = QualityOutcome.reject;
    })
    ∷ batch two_written
    ∷ []

disposition_refines_summary_example :
    ((record_events some_events fresh).quality_decision
      ≡ (quality_summary (record_events some_events fresh)).decision)
    × ((record_events some_events fresh).orchestration_action
        ≡ orchestration_action_for (quality_summary (record_events some_events fresh)))
disposition_refines_summary_example = disposition_refines_summary some_events (refl, tt)

abbrev pub collaborators : Collaborators String String
collaborators = record {
  process = λ row n. ok (record {
    data_container = some row;
    ingestion_key = some row;
    violations = [];
    outcome = QualityOutcome.valid;
  });
  insert_many = λ n batch. ok (record {
    inserted = length batch;
    duplicates = 0;
    equivalent_duplicates = 0;
    conflicting_duplicates = 0;
    failed = 0;
    duplicate_details = [];
  });
  create_many = some (λ es. ok (length es));
  workers = 2;
  batch_size = 2;
  start_row = 1;
  context = record {
    file_id = "f";
    partner = "bank";
    fetch_unit_key = none;
    config_version = none;
    review_packet_id = none;
    post_approval_run_id = none;
  };
}

collaborators-IsReliable : IsReliable collaborators
unfolding attempted
collaborators-IsReliable = record {
  processes = λ row n. tt;
  inserts = λ n batch. tt;
  attempts = λ n batch. omega arith;
  creates = λ es. tt;
}

run_settles_every_row_example :
    Returns
      (λ _ t. Settled collaborators 3 t)
      (run collaborators ("a" ∷ "b" ∷ "c" ∷ []) (start collaborators))
run_settles_every_row_example =
    run_settles_every_row collaborators collaborators-IsReliable ("a" ∷ "b" ∷ "c" ∷ [])
