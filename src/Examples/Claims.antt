-- ===== src/Examples/Claims.antt =====
-- Two workers and an operator on one stream: src/infrastructure/ingestion/checkpoint_repository.py.
use reconciliation_ingestion.Prelude.{
  true, false, [], none, some, get_or, same_key, ap, ◌≡◌, ◌⊎◌, refl, arith,
}
use reconciliation_ingestion.Result.{ok}
use reconciliation_ingestion.Checkpoint.Types.{
  Stream, scheduled, IngestionCheckpoint, SourceUnitStatus,
}
use reconciliation_ingestion.Checkpoint.Timeline.{
  change_to, change_unit, new_unit, find_unit, unit_timeline_update,
}
use reconciliation_ingestion.Checkpoint.Units.{timeline_is_a_map}
use reconciliation_ingestion.Checkpoint.ClaimQuery.{
  ClaimRequest, Tick, Interference, new_checkpoint, claimed, exhausted, is_claimable,
  next_attempt_count,
}
use reconciliation_ingestion.Checkpoint.Claim.{claim_unit}
use reconciliation_ingestion.Checkpoint.Updates.{Failure, is_held}
use reconciliation_ingestion.Checkpoint.Fencing.{
  complete, fail, ended_status, end_unit, holder_ends, stranger_is_fenced, other_claim,
}
use reconciliation_ingestion.Checkpoint.Attempt.{IsRefused}
use reconciliation_ingestion.Checkpoint.Eligible.{IsTaken, untouched, free_unit_is_won}
use reconciliation_ingestion.Checkpoint.Exclusion.{
  live_claim_is_kept, last_attempt_is_blocked, superseded_is_fenced, racing_claims_one_winner,
}
use reconciliation_ingestion.Checkpoint.Lifecycle.{
  Step, created, stepped, claiming, IsInOrder, Reachable-IsInOrder,
}
use reconciliation_ingestion.Checkpoint.Operations.{
  undisturbed, claim, perform, operation_is_a_step,
}
use reconciliation_ingestion.Examples.Store.{memory, memory-IsDocumentStore}

abbrev bank : Stream
bank = record {
  partner = "bank";
  fetch_config_id = "f1";
  source_type = "sftp";
  stream_key = "daily";
  mode = scheduled;
}

abbrev request : ClaimRequest
request = record {
  stream = bank;
  unit_key = "page-1";
  cursor_before = none;
  expected_previous_unit_key = none;
  max_attempts = some 1;
  config_version = none;
  source_endpoint = none;
  stream_metadata = record { page = some 1; label = none; attempt = none };
  runtime_run_id = none;
  source_file_id = none;
  attempt = none;
  claim_timeout_seconds = 900;
}

abbrev first_tick : Tick
first_tick = record { now = 100; timeline_now = 100; claim_id = "a"; event_id = "e1" }

abbrev second_tick : Tick
second_tick = record { now = 200; timeline_now = 200; claim_id = "b"; event_id = "e2" }

abbrev alone : Interference memory.Db
alone = undisturbed memory

abbrev pub fresh_stream : IngestionCheckpoint
fresh_stream = new_checkpoint request 50

abbrev pub taken : IngestionCheckpoint
taken = claimed request first_tick fresh_stream fresh_stream

-- The database with one document.
abbrev holding : IngestionCheckpoint → memory.Db
holding d k = some d

abbrev timed_out : Failure
timed_out = record {
  error = "timeout";
  error_code = "fetch_timeout";
  retryable = true;
  next_retry_at = some 400;
  max_attempts = some 3;
}

timeline_is_a_map_example :
    (find_unit "page-1" (unit_timeline_update [] "page-1" (change_to SourceUnitStatus.processing) 7)
      ≡ some (
          change_unit
            (change_to SourceUnitStatus.processing)
            7
            (get_or (new_unit "page-1" 7) (find_unit "page-1" []))))
    × (find_unit "page-2"
          (unit_timeline_update [] "page-1" (change_to SourceUnitStatus.processing) 7)
        ≡ find_unit "page-2" [])
timeline_is_a_map_example =
    timeline_is_a_map [] "page-1" "page-2" (change_to SourceUnitStatus.processing) 7 refl

free_unit_is_won_example :
    let (answer, db') = claim_unit memory alone request first_tick (holding fresh_stream) in
    (e : IngestionCheckpoint) × (answer ≡ ok (e, true))
    × (memory.find_one bank db' ≡ some e)
    × IsTaken "page-1" "a" 100 e
unfolding new_checkpoint
free_unit_is_won_example =
    free_unit_is_won memory memory-IsDocumentStore alone request first_tick (holding fresh_stream)
      fresh_stream fresh_stream refl refl refl refl refl (untouched refl)

live_claim_is_kept_example :
    IsRefused (claim_unit memory alone request second_tick (holding taken)).0
unfolding claimed new_checkpoint
live_claim_is_kept_example =
    live_claim_is_kept memory memory-IsDocumentStore alone request second_tick (holding taken) taken
      taken refl refl refl refl

last_attempt_is_blocked_example :
    let (answer, db') = claim_unit memory alone request second_tick (holding taken) in
    (answer ≡ ok (taken, false))
    × (memory.find_one bank db' ≡ some (exhausted second_tick taken taken))
    × (is_held (some "a") "page-1" (exhausted second_tick taken taken) ≡ false)
unfolding claimed new_checkpoint next_attempt_count find_unit
last_attempt_is_blocked_example =
    last_attempt_is_blocked memory memory-IsDocumentStore alone request second_tick (holding taken)
      taken (some "a") "page-1" (λ x. (refl, refl, refl)) refl refl refl refl refl

holder_ends_example :
    let (answer, db') =
      end_unit memory taken "page-1" (fail timed_out) second_tick (holding taken) in
    (answer ≡ ok true)
    × ((d' : IngestionCheckpoint) × (memory.find_one taken.stream db' ≡ some d')
        × (d'.status ≡ ended_status taken (fail timed_out)))
unfolding claimed new_checkpoint is_held
holder_ends_example =
    holder_ends memory memory-IsDocumentStore taken taken "page-1" (fail timed_out) second_tick
      (holding taken) refl refl refl

abbrev stolen : IngestionCheckpoint
stolen = record taken { claim_id = some "b" }

stranger_is_fenced_example :
    end_unit memory taken "page-1" (fail timed_out) second_tick (holding stolen)
    ≡ (ok false, holding stolen)
unfolding claimed new_checkpoint
stranger_is_fenced_example =
    stranger_is_fenced memory memory-IsDocumentStore taken stolen "page-1" (fail timed_out)
      second_tick (holding stolen) refl refl
      (other_claim λ e. cc (ap (λ o. same_key o (some "a")) e))

abbrev patient : ClaimRequest
patient = record request { max_attempts = some 3 }

abbrev late_tick : Tick
late_tick = record second_tick { now = 2000 }

superseded_is_fenced_example :
    let db' = (claim_unit memory alone patient late_tick (holding taken)).1 in
    end_unit memory taken "page-1" (complete none none) late_tick db' ≡ (ok false, db')
unfolding claimed new_checkpoint is_claimable next_attempt_count find_unit
superseded_is_fenced_example =
    superseded_is_fenced memory memory-IsDocumentStore alone patient late_tick late_tick
      (holding taken) taken taken taken "page-1" (complete none none) refl refl refl refl refl refl
      refl tt

racing_claims_one_winner_example :
    let (first, db') = claim_unit memory alone request first_tick (holding fresh_stream) in
    (first ≡ ok (claimed request first_tick fresh_stream fresh_stream, true))
    × IsRefused (claim_unit memory alone request second_tick db').0
unfolding is_claimable new_checkpoint
racing_claims_one_winner_example =
    racing_claims_one_winner memory memory-IsDocumentStore alone alone request request first_tick
      second_tick (holding fresh_stream) fresh_stream fresh_stream refl refl refl refl refl refl
      (λ x. refl) (omega arith)

Reachable-IsInOrder_example : IsInOrder taken
unfolding is_claimable new_checkpoint
Reachable-IsInOrder_example = Reachable-IsInOrder taken (
    stepped fresh_stream taken (created request 50) (claiming request first_tick fresh_stream refl))

operation_is_a_step_example :
    (d' : IngestionCheckpoint) × (memory.find_one bank
        (perform memory (claim request first_tick) (holding fresh_stream))
      ≡ some d')
    × ((fresh_stream ≡ d') ⊎ Step fresh_stream d')
unfolding new_checkpoint
operation_is_a_step_example =
    operation_is_a_step memory memory-IsDocumentStore (claim request first_tick)
      (holding fresh_stream) fresh_stream refl
