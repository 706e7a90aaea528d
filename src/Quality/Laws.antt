-- ===== src/Quality/Laws.antt =====
-- What the quality language promises: how an evaluation infers its outcome, and how a summary of
-- counts decides.
use reconciliation_ingestion.Prelude.{
  ◌≤◌, String, Bool, ◌||◌, List, [], ◌∷◌, ◌≡◌, refl, any, str_eq, ltb, arith, if◌then◌else◌, length,
}
use reconciliation_ingestion.Counter.{
  Counter, get_count, get_count-increment, increment, length-top_items,
}
use reconciliation_ingestion.Quality.Types.{
  QualityOutcome, QualityDecision, QualityViolation, QualityEvaluation, QualityRuleCode, pass,
  review, fail, code_value, outcome_value, reject, batch_fatal, is_batch_fatal, is_conflicting,
  is_conflicting_code, is_reject, is_warning,
}
use reconciliation_ingestion.Quality.Summary.{
  count_codes, tally, decide, from_counts, from_evaluations,
}

abbrev pub positive : String → Counter → Bool
positive k c = ltb 0 (get_count k c)

code_value-conflict :
    (code : QualityRuleCode)
    → str_eq (code_value code) "CONFLICTING_DUPLICATE" ≡ is_conflicting_code code
unfolding code_value
code_value-conflict QualityRuleCode.conflicting_duplicate = refl
code_value-conflict _ = refl

-- Counting one code makes the count of conflicts positive just when it is a conflict's.
positive-increment_code :
    (code : QualityRuleCode) (c : Counter)
    → positive "CONFLICTING_DUPLICATE" (increment (code_value code) c)
      ≡ (is_conflicting_code code || positive "CONFLICTING_DUPLICATE" c)
positive-increment_code code c = rw (get_count-increment, code_value-conflict) (ground arith)

pub positive-count_codes :
    (vs : List QualityViolation) (c : Counter)
    → positive "CONFLICTING_DUPLICATE" (count_codes vs c)
      ≡ (any (λ v. is_conflicting_code v.code) vs || positive "CONFLICTING_DUPLICATE" c)
unfolding count_codes
positive-count_codes [] c = refl
positive-count_codes (v ∷ vs) c = ground (
  arith,
  positive-count_codes vs (increment (code_value v.code) c),
  positive-increment_code v.code c,
)

-- The four answers that a decision reads from the counts of outcomes.
pub record Seen : Type 0 where
  pub fatal : Bool
  pub rejected : Bool
  pub warned : Bool
  pub conflicted : Bool

abbrev pub seen : Counter → Seen
seen c = record {
  fatal = positive "BATCH_FATAL" c;
  rejected = positive "REJECT" c;
  warned = positive "WARNING" c;
  conflicted = positive "CONFLICTING_DUPLICATE" c;
}

abbrev pub see : QualityOutcome → Seen → Seen
see o s = record {
  fatal = is_batch_fatal o || s.fatal;
  rejected = is_reject o || s.rejected;
  warned = is_warning o || s.warned;
  conflicted = is_conflicting o || s.conflicted;
}

-- One outcome among the counts adds what it shows to the answers.
pub seen-increment :
    (o : QualityOutcome) (c : Counter) → seen (increment (outcome_value o) c) ≡ see o (seen c)
unfolding outcome_value
seen-increment batch_fatal c = simp get_count-increment (ground arith)
seen-increment reject c = simp get_count-increment (ground arith)
seen-increment _ c = simp get_count-increment (ground arith)

-- The decision, from the answers alone.
abbrev pub decision_of : Bool → Seen → QualityDecision
decision_of conflict_rule s =
    if s.fatal
    then fail
    else if conflict_rule || (s.rejected || (s.warned || s.conflicted))
    then review
    else pass

pub decide-seen :
    (rules outcomes : Counter)
    → decide rules outcomes ≡ decision_of (positive "CONFLICTING_DUPLICATE" rules) (seen outcomes)
unfolding decide
decide-seen rules outcomes = refl

abbrev has_conflict_code : QualityEvaluation → Bool
has_conflict_code e = any (λ v. is_conflicting_code v.code) e.violations

-- What a list of evaluations shows.
abbrev shown : List QualityEvaluation → Seen → Seen
shown es s = record {
  fatal = any (λ e. is_batch_fatal e.outcome) es || s.fatal;
  rejected = any (λ e. is_reject e.outcome) es || s.rejected;
  warned = any (λ e. is_warning e.outcome) es || s.warned;
  conflicted = any (λ e. is_conflicting e.outcome) es || s.conflicted;
}

seen-tally :
    (es : List QualityEvaluation) (rules outcomes : Counter)
    → seen (tally es rules outcomes).1 ≡ shown es (seen outcomes)
unfolding tally
seen-tally [] rules outcomes = refl
seen-tally (e ∷ es) rules outcomes = ground (
  arith,
  seen-tally es (count_codes e.violations rules) (increment (outcome_value e.outcome) outcomes),
  seen-increment e.outcome outcomes,
)

rules-tally :
    (es : List QualityEvaluation) (rules outcomes : Counter)
    → positive "CONFLICTING_DUPLICATE" (tally es rules outcomes).0
      ≡ (any has_conflict_code es || positive "CONFLICTING_DUPLICATE" rules)
unfolding tally
rules-tally [] rules outcomes = refl
rules-tally (e ∷ es) rules outcomes = ground (
  arith,
  rules-tally es (count_codes e.violations rules) (increment (outcome_value e.outcome) outcomes),
  positive-count_codes e.violations rules,
)

-- The decision that the evaluations themselves ask for, read without any counter.
abbrev pub asked_decision : List QualityEvaluation → QualityDecision
asked_decision es =
    if any (λ e. is_batch_fatal e.outcome) es
    then fail
    else if any has_conflict_code es
        || (any (λ e. is_reject e.outcome) es
            || (any (λ e. is_warning e.outcome) es || any (λ e. is_conflicting e.outcome) es))
    then review
    else pass

-- A summary built by counting decides as the evaluations ask: FAIL exactly when one of them is
-- BATCH_FATAL, else REVIEW exactly when one carries a conflict code or is REJECT, WARNING or
-- CONFLICTING_DUPLICATE, else PASS; and it shows at most ten rule codes.
pub from_evaluations_decision :
    (es : List QualityEvaluation)
    → ((from_evaluations es).decision ≡ asked_decision es)
      × (length (from_evaluations es).top_rule_codes ≤ 10)
unfolding from_evaluations from_counts get_count
from_evaluations_decision es = (
  rw decide-seen (ground (arith, rules-tally es [] [], seen-tally es [] [])),
  length-top_items (tally es [] []).0,
)
