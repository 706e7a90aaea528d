-- ===== src/Resolution/Resolving.antt =====
-- `resolve_claimed` of `QuarantineResolutionService`, src/application/ingestion/quarantine_service.py.
use reconciliation_ingestion.Prelude.{
  ℕ, String, Bool, true, false, ◌&&◌, ◌||◌, not, Option, none, some, same_key, str_eq,
  if◌then◌else◌,
}
use reconciliation_ingestion.Result.{Exec, pure, gets, ◌>>=◌}
use reconciliation_ingestion.Quarantine.Values.{no_entries}
use reconciliation_ingestion.Quarantine.Types.{
  IngestionQuarantineRecord, QuarantineResolutionEvent, QuarantineStatus, QuarantineAction,
  is_reprocessing, same_status,
}
use reconciliation_ingestion.Quarantine.Updates.{claim_expired}
use reconciliation_ingestion.Quarantine.Repository.{
  Reservation, is_reserved, completed, in_progress,
}
use reconciliation_ingestion.Resolution.Answers.{
  ResolutionResult, missing_record, stale_record, refusal,
}
use reconciliation_ingestion.Resolution.Results.{replay_of}
use reconciliation_ingestion.Resolution.Ports.{
  ReprocessMode, ReprocessRequest, Ports, action_for, resolve_reprocess_input,
}
use reconciliation_ingestion.Resolution.Service.{Settlement, terminal_resolve, accept_existing_row}
use reconciliation_ingestion.Resolution.Replay.{
  replay_row, without_input, caught_value_error, stripped_reason,
}

-- The refusal of a reservation.
unfoldable pub refused_answer :
    Reservation → ReprocessRequest → IngestionQuarantineRecord → ResolutionResult
unfolding action_for
refused_answer in_progress r d =
    refusal r.record_id "ACTION_IN_PROGRESS" (action_for r.mode)
      "The operator action is already being processed." r.action_id d
refused_answer _ r d =
    refusal r.record_id "ACTION_ID_REUSE_CONFLICT" (action_for r.mode)
      "The operator action is already being processed." r.action_id d

module _ {S C : Type 0} (w : Ports S C) where
  -- The settlement of a rejection.
  unfoldable pub rejection : ReprocessRequest → Settlement
  rejection r = record {
    target = QuarantineStatus.rejected;
    action = QuarantineAction.reject;
    reason = stripped_reason r.reason;
    metadata = no_entries;
    outcome = "REJECTED";
    failure_classification = some "TERMINAL_OPERATOR_REJECTION";
    source_evidence_available = none;
  }

  -- What `_resolve_claimed` does once the action is reserved.
  abbrev pub perform_reserved :
      IngestionQuarantineRecord → ReprocessRequest → ReprocessMode → Exec S ResolutionResult
  perform_reserved d r ReprocessMode.reject = terminal_resolve w d r (rejection r)
  perform_reserved d r ReprocessMode.accept_existing = accept_existing_row w d r
  perform_reserved d r _ =
      caught_value_error w (resolve_reprocess_input w.read_source_row w.read_raw_page_row d r)
        (replay_row w d r) (without_input w d r)

  abbrev pub replay_or :
      String
      → String
      → String
      → QuarantineAction
      → Option String
      → Exec S ResolutionResult
      → Option QuarantineResolutionEvent
      → Exec S ResolutionResult
  replay_or record_id action_id operator_id action expected otherwise none = otherwise
  replay_or record_id action_id operator_id action expected otherwise (some e) =
      pure (replay_of record_id action_id operator_id action expected e)

  abbrev pub replay_request_or :
      ReprocessRequest → Exec S ResolutionResult → Exec S ResolutionResult
  replay_request_or r otherwise =
      w.find_action r.record_id r.action_id
      >>= replay_or r.record_id r.action_id r.operator_id (action_for r.mode) none otherwise

  abbrev pub on_reservation :
      IngestionQuarantineRecord → ReprocessRequest → Reservation → Exec S ResolutionResult
  on_reservation d r is_reserved = perform_reserved d r r.mode
  on_reservation d r completed = replay_request_or r (pure (refused_answer completed r d))
  on_reservation d r other = pure (refused_answer other r d)

  abbrev pub is_rejection : ReprocessMode → Bool
  is_rejection ReprocessMode.reject = true
  is_rejection _ = false

  -- The refusals of `_resolve_claimed`, on the record it has read.
  unfoldable pub refusal_of :
      ReprocessRequest → ℕ → IngestionQuarantineRecord → Option ResolutionResult
  refusal_of r now d =
      let action = action_for r.mode in
      if not (is_reprocessing r.expected_status) || not (same_status d.status r.expected_status)
      then some (stale_record d action)
      else if not (same_key d.claimed_by (some r.operator_id))
      then some (
          refusal r.record_id "WRONG_OWNER" action
            "Quarantine record is claimed by another operator." r.action_id d)
      else if claim_expired d.claim_expires_at now
      then some (
          refusal r.record_id "CLAIM_EXPIRED" action
            "The operator claim has expired and can no longer mutate the record." r.action_id d)
      else if is_rejection r.mode && str_eq (stripped_reason r.reason) ""
      then some (
          refusal r.record_id "REASON_REQUIRED" action "Operator reason is required for rejection."
            r.action_id d)
      else none

  abbrev pub reserve_unless :
      ReprocessRequest
      → IngestionQuarantineRecord
      → Option ResolutionResult
      → Exec S ResolutionResult
  reserve_unless r d (some x) = pure x
  reserve_unless r d none =
      w.reserve_action r.record_id r.operator_id r.action_id (action_for r.mode)
      >>= on_reservation d r

  abbrev pub resolve_found :
      ReprocessRequest → Option IngestionQuarantineRecord → Exec S ResolutionResult
  resolve_found r none = pure (missing_record r.record_id (action_for r.mode))
  resolve_found r (some d) = gets w.now >>= λ now. reserve_unless r d (refusal_of r now d)

  -- `resolve_claimed`
  unfoldable pub resolve_claimed : ReprocessRequest → Exec S ResolutionResult
  resolve_claimed r = replay_request_or r (w.find_by_id r.record_id >>= resolve_found r)
