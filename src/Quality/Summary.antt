-- ===== src/Quality/Summary.antt =====
-- `QualitySummary` and `orchestration_action_for`.
use reconciliation_ingestion.Prelude.{
  String, ◌||◌, List, [], ◌∷◌, ltb, if◌then◌else◌, Option, none, get_or,
}
use reconciliation_ingestion.Counter.{Counter, get_count, increment, top_items}
use reconciliation_ingestion.Quality.Types.{
  QualityOutcome, QualityDecision, QualityViolation, QualityEvaluation, pass, review, fail,
  code_value, outcome_value, valid, evaluation,
}

pub record QualitySummary : Type 0 where
  pub decision : QualityDecision
  pub rule_counts : Counter
  pub outcome_counts : Counter
  pub top_rule_codes : List String

unfoldable pub decide : Counter → Counter → QualityDecision
decide rule_counts outcome_counts =
    if ltb 0 (get_count "BATCH_FATAL" outcome_counts)
    then fail
    else if ltb 0 (get_count "CONFLICTING_DUPLICATE" rule_counts)
        || (ltb 0 (get_count "REJECT" outcome_counts)
            || (ltb 0 (get_count "WARNING" outcome_counts)
                || ltb 0 (get_count "CONFLICTING_DUPLICATE" outcome_counts)))
    then review
    else pass

unfoldable pub from_counts : Counter → Counter → QualitySummary
unfolding decide
from_counts rule_counts outcome_counts = record {
  decision = decide rule_counts outcome_counts;
  rule_counts = rule_counts;
  outcome_counts = outcome_counts;
  top_rule_codes = top_items rule_counts;
}

-- rule_counts[violation.code.value] += 1, for each violation
unfoldable pub count_codes : List QualityViolation → Counter → Counter
count_codes [] c = c
count_codes (v ∷ vs) c = count_codes vs (increment (code_value v.code) c)

-- The loop of `from_evaluations`.
unfoldable pub tally : List QualityEvaluation → Counter → Counter → Counter × Counter
unfolding count_codes
tally [] rules outcomes = (rules, outcomes)
tally (e ∷ es) rules outcomes =
    tally es (count_codes e.violations rules) (increment (outcome_value e.outcome) outcomes)

unfoldable pub from_evaluations : List QualityEvaluation → QualitySummary
unfolding tally from_counts
from_evaluations es = let (rules, outcomes) = tally es [] [] in from_counts rules outcomes

unfoldable from_violations : List QualityViolation → Option QualityOutcome → QualitySummary
unfolding from_evaluations
from_violations [] outcome = from_counts [] []
from_violations (v ∷ vs) outcome =
    from_evaluations (evaluation (get_or valid outcome) (v ∷ vs) none ∷ [])
