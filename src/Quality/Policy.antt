-- ===== src/Quality/Policy.antt =====
-- src/application/ingestion/quality_policy.py: the action that a summary asks of the orchestration.
use reconciliation_ingestion.Prelude.{Bool, true, false, ◌||◌, ltb, if◌then◌else◌}
use reconciliation_ingestion.Counter.{get_count}
use reconciliation_ingestion.Quality.Types.{QualityDecision}
use reconciliation_ingestion.Quality.Summary.{QualitySummary}

pub data OrchestrationAction : Type 0 where
  continue hold_for_review fail : OrchestrationAction

abbrev pub is_fail : QualityDecision → Bool
is_fail QualityDecision.fail = true
is_fail _ = false

unfoldable pub orchestration_action_for : QualitySummary → OrchestrationAction
orchestration_action_for summary =
    if is_fail summary.decision
    then fail
    else if ltb 0 (get_count "CONFLICTING_DUPLICATE" summary.rule_counts)
        || ltb 0 (get_count "CONFLICTING_DUPLICATE" summary.outcome_counts)
    then hold_for_review
    else continue
