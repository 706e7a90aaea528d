-- ===== src/RunState/Advance.antt =====
-- One advance of the disposition of src/pipeline/run_state.py, against the decision that the counts give.
use mathlib.Core.Path.{ap₂}
use reconciliation_ingestion.Prelude.{
  sym, ap, ◌∙◌, Bool, false, ◌||◌, List, [], ◌∷◌, ◌≡◌, refl, any, arith, if◌then◌else◌,
}
use reconciliation_ingestion.Counter.{Counter, increment}
use reconciliation_ingestion.Quality.Types.{
  QualityOutcome, QualityDecision, QualityViolation, outcome_value, code_value, is_conflicting_code,
}
use reconciliation_ingestion.Quality.Summary.{count_codes}
use reconciliation_ingestion.Quality.Policy.{OrchestrationAction, continue, hold_for_review}
use reconciliation_ingestion.Quality.Laws.{
  Seen, seen, see, seen-increment, positive, positive-count_codes, decision_of,
}
use reconciliation_ingestion.RunState.State.{
  IngestionRunState, add_error, add_violations, serialize_quality_violation,
}
use reconciliation_ingestion.RunState.Defs.{
  count_violations, count_outcome, record_quality, advance_quality_disposition, advance_disposition,
  is_plain_valid,
}

-- What the disposition is made of.
pub record Disposition : Type 0 where
  pub rules : Counter
  pub outcomes : Counter
  pub decision : QualityDecision
  pub action : OrchestrationAction

abbrev pub disposition : IngestionRunState → Disposition
disposition s = record {
  rules = s.quality_rule_counts;
  outcomes = s.quality_outcome_counts;
  decision = s.quality_decision;
  action = s.orchestration_action;
}

disposition-add_error :
    (e : _) (s : IngestionRunState) → disposition (add_error e s) ≡ disposition s
unfolding add_error
disposition-add_error e s = ground arith

pub disposition-add_violations :
    (vs : List QualityViolation) (s : IngestionRunState)
    → disposition (add_violations vs s) ≡ disposition s
unfolding add_violations
disposition-add_violations [] s = refl
disposition-add_violations (v ∷ vs) s = cc (
  disposition-add_violations vs (add_error (serialize_quality_violation v) s),
  disposition-add_error (serialize_quality_violation v) s,
)

-- The counts and the disposition after one outcome.
abbrev advanced : QualityOutcome → List QualityViolation → Disposition → Disposition
advanced o vs d =
    let next = advance_disposition o (d.decision, d.action) in
    if is_plain_valid o
    then record d { outcomes = increment (outcome_value o) d.outcomes }
    else record {
      rules = count_codes vs d.rules;
      outcomes = increment (outcome_value o) d.outcomes;
      decision = next.0;
      action = next.1;
    }

count_violations-eq :
    (vs : List QualityViolation) (s : IngestionRunState)
    → count_violations vs s
      ≡ record s { quality_rule_counts = count_codes vs s.quality_rule_counts }
unfolding count_violations count_codes
count_violations-eq [] s = refl
count_violations-eq (v ∷ vs) s =
    count_violations-eq vs
      (record s { quality_rule_counts = increment (code_value v.code) s.quality_rule_counts })

pub disposition-record_quality :
    (o : QualityOutcome) (vs : List QualityViolation) (w : Bool) (s : IngestionRunState)
    → disposition (record_quality o vs w s) ≡ advanced o vs (disposition s)
unfolding record_quality count_outcome advance_quality_disposition
disposition-record_quality o vs w s = rw count_violations-eq (ground arith)

-- A conflict's code stands only among the violations of a conflict, or of a fatal outcome. (A VALID
-- outcome counts no violation.)
abbrev pub IsCoherent : QualityOutcome → List QualityViolation → Type 0
IsCoherent QualityOutcome.conflicting_duplicate vs = Unit {0}
IsCoherent QualityOutcome.batch_fatal vs = Unit {0}
IsCoherent QualityOutcome.valid vs = Unit {0}
IsCoherent o vs = any (λ v. is_conflicting_code v.code) vs ≡ false

-- The action that the answers ask for.
abbrev pub action_of : Bool → Seen → OrchestrationAction
action_of conflict_rule s =
    if s.fatal
    then OrchestrationAction.fail
    else if conflict_rule || s.conflicted
    then hold_for_review
    else continue

-- The decision and the action kept in a disposition are those that its counts give.
pub record Agrees (d : Disposition) : Type 0 where
  pub decision_agrees :
      d.decision ≡ decision_of (positive "CONFLICTING_DUPLICATE" d.rules) (seen d.outcomes)
  pub action_agrees :
      d.action ≡ action_of (positive "CONFLICTING_DUPLICATE" d.rules) (seen d.outcomes)

-- The step, with the counts already read as answers.
abbrev StepAgrees : QualityOutcome → Bool → Bool → Seen → Type 0
StepAgrees o has_code r s =
    let next = advance_disposition o (decision_of r s, action_of r s) in
    (next.0 ≡ decision_of (has_code || r) (see o s))
    × (next.1 ≡ action_of (has_code || r) (see o s))

abbrev AllowsCode : QualityOutcome → Bool → Type 0
AllowsCode QualityOutcome.conflicting_duplicate b = Unit {0}
AllowsCode QualityOutcome.batch_fatal b = Unit {0}
AllowsCode o b = b ≡ false

StepAgrees_lem :
    (o : QualityOutcome) (has_code r : Bool) (s : Seen)
    → is_plain_valid o ≡ false
    → AllowsCode o has_code
    → StepAgrees o has_code r s
unfolding advance_disposition
StepAgrees_lem QualityOutcome.batch_fatal h r s p c = (ground arith, ground arith)
StepAgrees_lem QualityOutcome.conflicting_duplicate h r s p c = (ground arith, ground arith)
StepAgrees_lem _ h r s p c = (ground arith, ground arith)

plain_agrees :
    (r : Bool) (s : Seen)
    → (decision_of r s ≡ decision_of r (see QualityOutcome.valid s))
      × (action_of r s ≡ action_of r (see QualityOutcome.valid s))
plain_agrees r s = (refl, refl)

-- The disposition after an outcome that is not VALID.
abbrev moved : QualityOutcome → List QualityViolation → Disposition → Disposition
moved o vs d =
    let next = advance_disposition o (d.decision, d.action) in
    record {
      rules = count_codes vs d.rules;
      outcomes = increment (outcome_value o) d.outcomes;
      decision = next.0;
      action = next.1;
    }

Agrees-moved :
    (o : QualityOutcome) (vs : List QualityViolation) (d : Disposition)
    → is_plain_valid o ≡ false
    → AllowsCode o (any (λ v. is_conflicting_code v.code) vs)
    → Agrees d
    → Agrees (moved o vs d)
Agrees-moved o vs d p c a =
    let step =
      StepAgrees_lem o (any (λ v. is_conflicting_code v.code) vs)
        (positive "CONFLICTING_DUPLICATE" d.rules) (seen d.outcomes) p c in
    let rules = sym (positive-count_codes vs d.rules) in
    let outcomes = sym (seen-increment o d.outcomes) in
    record {
      decision_agrees =
          (λ i. (advance_disposition o (a.decision_agrees i, a.action_agrees i)).0)
          ∙ step.0
          ∙ ap₂ decision_of rules outcomes;
      action_agrees =
          (λ i. (advance_disposition o (a.decision_agrees i, a.action_agrees i)).1)
          ∙ step.1
          ∙ ap₂ action_of rules outcomes;
    }

pub Agrees-advanced :
    (o : QualityOutcome) (vs : List QualityViolation) (d : Disposition)
    → IsCoherent o vs
    → Agrees d
    → Agrees (advanced o vs d)
Agrees-advanced QualityOutcome.valid vs d c a = record {
  decision_agrees =
      a.decision_agrees ∙ ap (decision_of _) (sym (seen-increment QualityOutcome.valid d.outcomes));
  action_agrees =
      a.action_agrees ∙ ap (action_of _) (sym (seen-increment QualityOutcome.valid d.outcomes));
}
Agrees-advanced o vs d c a = Agrees-moved o vs d refl c a
