-- ===== src/Examples/Units.antt =====
-- A stream of two units under a retry policy: src/application/ingestion/source_unit_orchestrator.py and
-- src/domain/ingestion/retry_policy.py.
use reconciliation_ingestion.Prelude.{
  ℕ, ◌+◌, ◌≤◌, String, true, false, ◌&&◌, not, [], ◌∷◌, none, some, same_key, is_some, get_or, ltb,
  ◌≡◌, refl, arith,
}
use reconciliation_ingestion.Result.{ok, Returns}
use reconciliation_ingestion.Retry.{
  RetryPolicy, validated, classify, is_retryable, can_retry, next_retry_at, retry_schedule,
}
use reconciliation_ingestion.Checkpoint.Updates.{blocks}
use reconciliation_ingestion.Orchestrator.Outcome.{
  SourceUnitMetadata, IngestionOutcome, flag, from_result,
}
use reconciliation_ingestion.Orchestrator.Ports.{Ports}
use reconciliation_ingestion.Orchestrator.Process.{failure_of, process_source_units}
use reconciliation_ingestion.Orchestrator.Rounds.{IsCalm}
use reconciliation_ingestion.Orchestrator.Order.{Reports, units_in_order}
use reconciliation_ingestion.Prelude.{All, ◌⊎◌}
use reconciliation_ingestion.Orchestrator.Resume.{
  IsLastCompleted, units_after_checkpoint, IsCut, stream_resumes,
}
use reconciliation_ingestion.Orchestrator.Failures.{policy_decides_block}
use reconciliation_ingestion.Examples.Claims.{fresh_stream}

abbrev policy : RetryPolicy
policy = record {
  max_attempts = 3;
  initial_backoff_seconds = 60;
  max_backoff_seconds = 3600;
  retryable_error_codes = "fetch_timeout" ∷ "source_unit_failed" ∷ [];
}

retry_schedule_example :
    (is_some (next_retry_at policy "fetch_timeout" 1 1000)
      ≡ (is_retryable (classify policy "fetch_timeout") && ltb 1 policy.max_attempts))
    × (1000 + 60 ≤ get_or (1000 + 60) (next_retry_at policy "fetch_timeout" 1 1000))
    × (get_or 1000 (next_retry_at policy "fetch_timeout" 1 1000) ≤ 1000 + 3600)
    × (get_or 1000 (next_retry_at policy "fetch_timeout" 1 1000)
        ≤ get_or (1000 + 3600) (next_retry_at policy "fetch_timeout" 2 1000))
unfolding validated
retry_schedule_example = retry_schedule policy "fetch_timeout" 1 2 1000 refl (omega arith)

-- The world is the number of calls.
abbrev ports : Ports ℕ
ports = record {
  claim_unit = λ u k previous limit s. (ok (fresh_stream, true), s + 1);
  mark_completed = λ c k u s. (ok true, s + 1);
  advance = λ c k s. (ok true, s + 1);
  mark_failed = λ c k f s. (ok true, s + 1);
  release_for_review = λ c k reason s. (ok true, s + 1);
  update_source_context = λ c f s. s + 1;
  ingest_unit = λ u s. (ok (flag (ltb s 4)), s + 1);
  observe = λ u n c s. s;
  on_unit_completed = λ u s. (ok tt, s);
  now = λ s. s;
  sanitize = λ t. t;
  describe = λ e. "error";
  max_attempts = none;
  retry_policy = some policy;
}

ports-IsCalm : IsCalm ports
ports-IsCalm = record {
  claims = λ u k previous limit s. tt;
  completes = λ c k u s. tt;
  advances = λ c k s. tt;
  fails = λ c k f s. tt;
  releases = λ c k reason s. tt;
  ingests = λ u s. tt;
  calls_back = λ u s. tt;
}

abbrev page : String → SourceUnitMetadata
page key = record {
  source_unit_key = some key;
  page = none;
  content_hash = some key;
  cursor_before = none;
  cursor_after = none;
  high_water_mark = none;
}

units_in_order_example :
    Returns
      (Reports ports ports-IsCalm 0 (page "a" ∷ page "b" ∷ []))
      (process_source_units ports (page "a" ∷ page "b" ∷ []) none 0)
units_in_order_example = units_in_order ports ports-IsCalm (page "a" ∷ page "b" ∷ []) none 0

abbrev failed_flag : IngestionOutcome
failed_flag = from_result (flag false)

policy_decides_block_example :
    (blocks fresh_stream (failure_of ports failed_flag fresh_stream 9)
      ≡ not (
          not (same_key failed_flag.orchestration_action (some "FAIL"))
          && can_retry policy failed_flag.error_code fresh_stream.attempt_count))
    × (is_some (failure_of ports failed_flag fresh_stream 9).next_retry_at ≡ (
        not (same_key failed_flag.orchestration_action (some "FAIL"))
        && can_retry policy failed_flag.error_code fresh_stream.attempt_count))
unfolding from_result
policy_decides_block_example =
    policy_decides_block ports policy failed_flag fresh_stream 9 refl refl

stream_resumes_example :
    (All (λ u. ¬ (IsLastCompleted u (some fresh_stream))) (page "a" ∷ page "b" ∷ [])
      × (units_after_checkpoint (page "a" ∷ page "b" ∷ []) (some fresh_stream)
          ≡ page "a" ∷ page "b" ∷ []))
    ⊎ IsCut
        (some fresh_stream)
        (page "a" ∷ page "b" ∷ [])
        (units_after_checkpoint (page "a" ∷ page "b" ∷ []) (some fresh_stream))
stream_resumes_example = stream_resumes (page "a" ∷ page "b" ∷ []) (some fresh_stream)

-- A unit without a key passes for the completed one where nothing is completed yet.
keyless_unit_is_dropped :
    units_after_checkpoint
      (page "a" ∷ record (page "b") { source_unit_key = none } ∷ page "c" ∷ [])
      none
    ≡ page "c" ∷ []
unfolding units_after_checkpoint
keyless_unit_is_dropped = refl
