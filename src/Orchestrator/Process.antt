-- ===== src/Orchestrator/Process.antt =====
-- `process_source_units` of src/application/ingestion/source_unit_orchestrator.py, one function for each way a
-- round of its loop goes.
use reconciliation_ingestion.Prelude.{
  ℕ, ◌+◌, String, Bool, true, false, ◌&&◌, ◌||◌, not, List, [], ◌∷◌, Option, none, some, same_key,
  str_eq, if◌then◌else◌,
}
use reconciliation_ingestion.Result.{err, Error, Exec, pure, lift, gets, modify, ◌>>=◌, ◌>>◌}
use reconciliation_ingestion.Retry.{classify, is_retryable, next_retry_at}
use reconciliation_ingestion.Checkpoint.Types.{IngestionCheckpoint}
use reconciliation_ingestion.Checkpoint.Updates.{Failure, is_skip}
use reconciliation_ingestion.Orchestrator.Outcome.{
  SourceUnitMetadata, IngestionOutcome, IngestionResult, from_result, raw_outcome,
  source_file_id_of,
}
use reconciliation_ingestion.Orchestrator.Ports.{
  Notice, Ports, Progress, Summary, UnitEnd, failure_at, review_at, summary, note_duplicate,
  attempted_call, claimed_notice, replayed_notice, skipped_notice, ingested, failure, waiting,
  moved, stopped,
}

module _ {S : Type 0} (w : Ports S) where
  abbrev pub attempt_limit : Option ℕ
  attempt_limit = elim w.retry_policy [ none ↦ w.max_attempts | some p ↦ some p.max_attempts ]

  abbrev pub tell : SourceUnitMetadata → Notice → IngestionCheckpoint → Exec S (Unit {0})
  tell u n c = modify (w.observe u n c)

  -- `mark_failed` with its answer left aside, then the notice.
  unfoldable pub record_failure :
      SourceUnitMetadata → String → Failure → IngestionCheckpoint → Exec S (Unit {0})
  unfolding ◌>>=◌
  record_failure u key f c = w.mark_failed c key f >>= λ _. tell u (failure f.error) c

  -- The arguments of `mark_failed` for an outcome, by its action and the retry policy.
  unfoldable pub failure_of : IngestionOutcome → IngestionCheckpoint → ℕ → Failure
  failure_of o c now =
      let quality_failure = same_key o.orchestration_action (some "FAIL") in
      let plain : Failure = record {
        error = w.sanitize o.error;
        error_code = w.sanitize o.error_code;
        retryable = o.retryable && not quality_failure;
        next_retry_at = if quality_failure then none else o.next_retry_at;
        max_attempts = if quality_failure then none else w.max_attempts;
      } in
      elim w.retry_policy [
        | none ↦ plain
        | some p ↦
            if o.retryable && not quality_failure
            then (if is_retryable (classify p o.error_code)
                then record plain {
                  max_attempts = some p.max_attempts;
                  next_retry_at = next_retry_at p o.error_code c.attempt_count now;
                }
                else record plain { retryable = false; next_retry_at = none })
            else plain
      ]

  -- A claim that was not won.
  unfoldable pub not_won :
      SourceUnitMetadata → String → IngestionCheckpoint → Progress → Exec S UnitEnd
  unfolding ◌>>=◌
  not_won u key c p =
      if same_key c.last_completed_unit_key (some key)
      then (tell u replayed_notice c
          >> pure (moved (record p { replayed = p.replayed + 1; previous_unit_key = some key })))
      else pure (stopped (failure_at (some key) "Source unit claim was not acquired" p))

  abbrev pub advance_if : IngestionCheckpoint → String → Bool → Exec S Bool
  advance_if c key true = w.advance c key
  advance_if c key false = pure false

  -- A unit that an operator has resolved to be skipped.
  unfoldable pub skip_unit :
      SourceUnitMetadata → String → IngestionCheckpoint → Progress → Exec S UnitEnd
  unfolding ◌>>=◌
  skip_unit u key c p = do
    completed ← w.mark_completed c key u
    advanced ← advance_if c key completed
    if advanced
        then (tell u skipped_notice c
            >> pure (moved (record p { skipped = p.skipped + 1; previous_unit_key = some key })))
        else pure (stopped (failure_at (some key) "Checkpoint skip advancement failed" p))

  -- An outcome that waits for a review.
  unfoldable pub hold_unit :
      SourceUnitMetadata
      → String
      → IngestionCheckpoint
      → IngestionOutcome
      → Progress
      → Exec S UnitEnd
  unfolding ◌>>=◌
  hold_unit u key c o p =
      let reason = w.sanitize o.error in
      w.release_for_review c key reason >>= λ released.
      if released
      then (tell u (waiting reason) c >> pure (stopped (review_at key reason p)))
      else pure (stopped (failure_at (some key) "Checkpoint release for review failed" p))

  -- An outcome that failed.
  unfoldable pub fail_unit :
      SourceUnitMetadata
      → String
      → IngestionCheckpoint
      → IngestionOutcome
      → Progress
      → Exec S UnitEnd
  unfolding ◌>>=◌ record_failure failure_of
  fail_unit u key c o p = do
    now ← gets w.now
    record_failure u key (failure_of o c now) c
    pure (stopped (failure_at (some key) (w.sanitize o.error) p))

  abbrev pub advance_error : String → Failure
  advance_error error = record {
    error = error;
    error_code = "checkpoint_advance_error";
    retryable = true;
    next_retry_at = none;
    max_attempts = w.max_attempts;
  }

  -- The end of a unit that is completed: the checkpoint moves on, then the callbacks run.
  unfoldable pub advance_unit :
      SourceUnitMetadata
      → String
      → IngestionCheckpoint
      → IngestionResult
      → Progress
      → Exec S UnitEnd
  unfolding ◌>>=◌
  advance_unit u key c r p = do
    advanced ← w.advance c key
    if advanced
        then (tell u (ingested r) c
            >> (w.on_unit_completed u
                >> pure (
                    moved
                      (record p { processed = p.processed + 1; previous_unit_key = some key }))))
        else (tell u (failure "Checkpoint advance update failed") c
            >> pure (stopped (failure_at (some key) "Checkpoint advance update failed" p)))

  -- An outcome that succeeded.
  unfoldable pub complete_unit :
      SourceUnitMetadata
      → String
      → IngestionCheckpoint
      → IngestionResult
      → Progress
      → Exec S UnitEnd
  unfolding ◌>>=◌ record_failure advance_unit
  complete_unit u key c r p = do
    completed ← w.mark_completed c key u
    if completed
        then advance_unit u key c r p
        else (record_failure u key (advance_error "Checkpoint completion update failed") c
            >> pure (stopped (failure_at (some key) "Checkpoint completion update failed" p)))

  -- What the loop does with a result.
  unfoldable pub settle_unit :
      SourceUnitMetadata
      → String
      → IngestionCheckpoint
      → Progress
      → IngestionResult
      → Exec S UnitEnd
  unfolding ◌>>=◌ hold_unit fail_unit complete_unit
  settle_unit u key c p r =
      let o = from_result r in
      let noted = note_duplicate (raw_outcome r) p in
      modify (λ s. elim (source_file_id_of r) [ none ↦ s | some f ↦ w.update_source_context c f s ])
      >> (if o.waiting_for_review
          then hold_unit u key c o noted
          else if not o.success
          then fail_unit u key c o noted
          else complete_unit u key c r (record noted {
            partial_outcome = noted.partial_outcome || same_key (raw_outcome r) (some "PARTIAL");
          }))

  -- The `except` branch of the worker: the failure is recorded, and the exception goes on.
  unfoldable pub worker_raised :
      SourceUnitMetadata → String → IngestionCheckpoint → Error → Exec S UnitEnd
  unfolding ◌>>=◌ record_failure
  worker_raised u key c e = do
    record_failure u key
        (record {
          error = w.sanitize (w.describe e);
          error_code = "source_runtime_error";
          retryable = true;
          next_retry_at = none;
          max_attempts = attempt_limit;
        })
        c
    lift (err e)

  unfoldable pub ingest_claimed :
      SourceUnitMetadata → String → IngestionCheckpoint → Progress → Exec S UnitEnd
  unfolding settle_unit worker_raised
  ingest_claimed u key c p s =
      let (r, t) = w.ingest_unit u s in
      attempted_call r (settle_unit u key c p) (worker_raised u key c) t

  -- A claim that was won.
  unfoldable pub won : SourceUnitMetadata → String → IngestionCheckpoint → Progress → Exec S UnitEnd
  unfolding ◌>>=◌ skip_unit ingest_claimed
  won u key c p =
      tell u claimed_notice c
      >> (if is_skip c.resolution && same_key c.current_unit_key (some key)
          then skip_unit u key c p
          else ingest_claimed u key c p)

  -- `if not unit_key`
  unfoldable pub unit_key_of : SourceUnitMetadata → Option String
  unit_key_of u = elim u.source_unit_key [
    | none ↦ none
    | some key ↦ if str_eq key "" then none else some key
  ]

  -- One round of the loop, on the unit's key.
  unfoldable pub process_keyed : SourceUnitMetadata → Progress → Option String → Exec S UnitEnd
  unfolding ◌>>=◌ won not_won
  process_keyed u p none = pure (stopped (failure_at none "Source unit is missing sourceUnitKey" p))
  process_keyed u p (some key) = w.claim_unit u key p.previous_unit_key attempt_limit >>= λ claim.
      if claim.1 then won u key claim.0 p else not_won u key claim.0 p

  abbrev pub continue_with : (Progress → Exec S Summary) → UnitEnd → Exec S Summary
  continue_with rest (moved p) = rest p
  continue_with rest (stopped s) = pure s

  unfoldable pub process_units : List SourceUnitMetadata → Progress → Exec S Summary
  unfolding ◌>>=◌ process_keyed unit_key_of summary
  process_units [] p = pure (summary p)
  process_units (u ∷ us) p = process_keyed u p (unit_key_of u) >>= continue_with (process_units us)

  -- `process_source_units`; `last` is the stream identity's `lastCompletedUnitKey`.
  unfoldable pub process_source_units : List SourceUnitMetadata → Option String → Exec S Summary
  unfolding process_units
  process_source_units units last = process_units units (record {
    processed = 0;
    replayed = 0;
    skipped = 0;
    partial_outcome = false;
    duplicate_outcomes = [];
    previous_unit_key = last;
  })
