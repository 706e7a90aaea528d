-- ===== src/Orchestrator/Failures.antt =====
-- The failure that src/application/ingestion/source_unit_orchestrator.py reports, and what
-- src/infrastructure/ingestion/checkpoint_repository.py makes of it.
use reconciliation_ingestion.Prelude.{
  ℕ, Bool, true, false, ◌&&◌, not, Option, none, some, same_key, is_some, ltb, leb, ◌≡◌, refl, ap,
  ◌∙◌, arith, Bool-cases, inl, inr,
}
use reconciliation_ingestion.Retry.{RetryPolicy, classify, is_retryable, can_retry, next_retry_at}
use reconciliation_ingestion.Checkpoint.Types.{IngestionCheckpoint}
use reconciliation_ingestion.Checkpoint.Updates.{Failure, blocks}
use reconciliation_ingestion.Orchestrator.Outcome.{IngestionOutcome}
use reconciliation_ingestion.Orchestrator.Ports.{Ports}
use reconciliation_ingestion.Orchestrator.Process.{failure_of}

module _ {S : Type 0} (w : Ports S) (p : RetryPolicy) (o : IngestionOutcome)
    (c : IngestionCheckpoint) (now : ℕ) where
  abbrev report : Bool → Option ℕ → Option ℕ → Failure
  report retryable next limit = record {
    error = w.sanitize o.error;
    error_code = w.sanitize o.error_code;
    retryable = retryable;
    next_retry_at = next;
    max_attempts = limit;
  }

  failure_of-fatal :
      w.retry_policy ≡ some p
      → o.retryable ≡ true
      → same_key o.orchestration_action (some "FAIL") ≡ true
      → failure_of w o c now ≡ report false none none
  unfolding failure_of
  failure_of-fatal h r q = rw h (rw r (rw q refl))

  failure_of-retryable :
      w.retry_policy ≡ some p
      → o.retryable ≡ true
      → same_key o.orchestration_action (some "FAIL") ≡ false
      → is_retryable (classify p o.error_code) ≡ true
      → failure_of w o c now
        ≡ report true (next_retry_at p o.error_code c.attempt_count now) (some p.max_attempts)
  unfolding failure_of
  failure_of-retryable h r q t = rw h (rw r (rw q (rw t refl)))

  failure_of-terminal :
      w.retry_policy ≡ some p
      → o.retryable ≡ true
      → same_key o.orchestration_action (some "FAIL") ≡ false
      → is_retryable (classify p o.error_code) ≡ false
      → failure_of w o c now ≡ report false none w.max_attempts
  unfolding failure_of
  failure_of-terminal h r q t = rw h (rw r (rw q (rw t refl)))

  limit-left : (n m : ℕ) → leb m n ≡ not (ltb n m)
  limit-left n m = ground arith

-- Under a retry policy, of an outcome that its result calls retryable: one that fails the batch blocks
-- its unit; any other blocks it exactly when the policy allows no further attempt; and a time for the
-- next attempt is given exactly when the policy allows one.
pub policy_decides_block :
    {S : Type 0} (w : Ports S) (p : RetryPolicy) (o : IngestionOutcome) (c : IngestionCheckpoint)
    (now : ℕ)
    → w.retry_policy ≡ some p
    → o.retryable ≡ true
    → let fatal = same_key o.orchestration_action (some "FAIL") in
      let allowed = not fatal && can_retry p o.error_code c.attempt_count in
      (blocks c (failure_of w o c now) ≡ not allowed)
      × (is_some (failure_of w o c now).next_retry_at ≡ allowed)
unfolding blocks can_retry next_retry_at
policy_decides_block w p o c now h r =
    elim (Bool-cases (same_key o.orchestration_action (some "FAIL"))) [
      | inl q ↦ rw (failure_of-fatal w p o c now h r q) (rw q (refl, refl))
      | inr q ↦ elim (Bool-cases (is_retryable (classify p o.error_code))) [
        | inl t ↦ rw (failure_of-retryable w p o c now h r q t) (
            rw (q, t)
              (elim (Bool-cases (ltb c.attempt_count p.max_attempts)) [
                | inl l ↦
                    rw l (limit-left w p o c now c.attempt_count p.max_attempts ∙ ap not l, refl)
                | inr l ↦
                    rw l (limit-left w p o c now c.attempt_count p.max_attempts ∙ ap not l, refl)
              ]))
        | inr t ↦ rw (failure_of-terminal w p o c now h r q t) (rw (q, t) (refl, refl))
      ]
    ]
