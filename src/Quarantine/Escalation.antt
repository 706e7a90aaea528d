-- ===== src/Quarantine/Escalation.antt =====
-- The filter and the update of `escalate` of src/infrastructure/ingestion/quarantine_repository.py.
use reconciliation_ingestion.Prelude.{
  ℕ, ◌+◌, min, String, Bool, ◌&&◌, ◌||◌, not, some, [], ◌∷◌, ◌++◌, same_key, ltb, ◌==◌,
  if◌then◌else◌,
}
use reconciliation_ingestion.Quarantine.Values.{Value, no_entries, entry, null, integer, string}
use reconciliation_ingestion.Quarantine.Types.{
  IngestionQuarantineRecord, QuarantineResolutionEvent, QuarantineStatus, escalate, is_reprocessing,
  same_status, is_active,
}
use reconciliation_ingestion.Quarantine.Updates.{
  Tick, bounded_text, claim_expired, is_unused, lease_is_live, priority_value, optional_instant,
}

-- The early returns of `escalate`, on the document it has read.
unfoldable pub may_escalate : String → QuarantineStatus → ℕ → IngestionQuarantineRecord → Bool
unfolding claim_expired
may_escalate operator_id expected_status now seen =
    is_active seen.status
    && (same_status seen.status expected_status
        && (not (is_reprocessing seen.status && not (same_key seen.claimed_by (some operator_id)))
            && (ltb seen.escalation_level 3
                && not (is_reprocessing seen.status && claim_expired seen.claim_expires_at now))))

unfoldable pub target_level : IngestionQuarantineRecord → ℕ
target_level seen = min (seen.escalation_level + 1) 3

unfoldable pub is_escalatable :
    String → String → ℕ → IngestionQuarantineRecord → IngestionQuarantineRecord → Bool
is_escalatable operator_id action_id now seen d =
    same_status seen.status d.status
    && (d.escalation_level == seen.escalation_level
        && ((not (is_reprocessing seen.status) || same_key d.claimed_by (some operator_id))
            && (is_unused (some action_id) d && lease_is_live seen.claim_expires_at now d)))

abbrev claimant : String → QuarantineStatus → Value
claimant operator_id s = if is_reprocessing s then string operator_id else null

unfoldable pub escalate_event :
    String → String → String → Tick → IngestionQuarantineRecord → QuarantineResolutionEvent
unfolding bounded_text target_level
escalate_event operator_id action_id reason tick seen = record {
  event_id = tick.event_id;
  from_status = seen.status;
  to_status = seen.status;
  action = escalate;
  actor = operator_id;
  reason = bounded_text reason;
  attempt = seen.attempt_count;
  action_id = some action_id;
  outcome = some "ESCALATED";
  timestamp = tick.event_time;
  metadata = entry "escalationLevel" (integer (target_level seen)) (
      entry "claimedBy" (claimant operator_id seen.status) (
        entry "priority" (string (priority_value seen.priority))
          (entry "reviewDueAt" (optional_instant seen.review_due_at) no_entries)));
}

unfoldable pub escalated :
    String
    → String
    → String
    → Tick
    → IngestionQuarantineRecord
    → IngestionQuarantineRecord
    → IngestionQuarantineRecord
unfolding escalate_event target_level
escalated operator_id action_id reason tick seen d = record d {
  escalation_level = target_level seen;
  escalated_at = some tick.now;
  escalated_by = some operator_id;
  last_action_id = some action_id;
  updated_at = tick.now;
  resolution_history =
      d.resolution_history ++ (escalate_event operator_id action_id reason tick seen ∷ []);
}
