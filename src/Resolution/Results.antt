-- ===== src/Resolution/Results.antt =====
-- The answer of src/application/ingestion/quarantine_service.py to a repeated request, from the stored event of its
-- action.
use reconciliation_ingestion.Prelude.{
  ℕ, String, Bool, true, false, ◌&&◌, ◌||◌, not, Option, none, some, [], ◌∷◌, same_key, str_eq,
  if◌then◌else◌,
}
use reconciliation_ingestion.Quarantine.Values.{
  Value, Entries, boolean, integer, instant, string, entry, no_entries,
}
use reconciliation_ingestion.Quarantine.Types.{
  QuarantineResolutionEvent, QuarantineAction, QuarantinePriority, normal, high, reprocess,
  accept_existing, reject, escalate, is_terminal, same_action, non_empty,
}
use reconciliation_ingestion.Resolution.Answers.{
  is_one_of, operation_counters, ResolutionResult, plain_result,
}

abbrev metadata_of : String → Entries → Option Value
metadata_of k no_entries = none
metadata_of k (entry j v es) = let rest = metadata_of k es in if str_eq j k then some v else rest

abbrev as_flag : Option Value → Option Bool
as_flag (some (boolean b)) = some b
as_flag _ = none

abbrev as_count : Option Value → Option ℕ
as_count (some (integer n)) = some n
as_count _ = none

abbrev as_text : Option Value → Option String
as_text (some (string s)) = some s
as_text _ = none

abbrev as_instant : Option Value → Option ℕ
as_instant (some (instant t)) = some t
as_instant _ = none

abbrev priority_of : Option String → Option QuarantinePriority
priority_of none = none
priority_of (some s) =
    if str_eq s "NORMAL" then some normal else if str_eq s "HIGH" then some high else none

abbrev pub is_notice : String → Bool
is_notice outcome = is_one_of outcome ("CLAIMED" ∷ "ESCALATED" ∷ [])

abbrev pub is_noticed : Option String → Bool
is_noticed none = false
is_noticed (some o) = is_notice o

-- `_event_success`
unfoldable pub event_success : QuarantineResolutionEvent → Bool
event_success e = is_terminal e.to_status || is_noticed e.outcome

-- `.value` of an action.
abbrev pub action_value : QuarantineAction → String
action_value reprocess = "REPROCESS"
action_value accept_existing = "ACCEPT_EXISTING"
action_value reject = "REJECT"
action_value escalate = "ESCALATE"

abbrev pub text_or : Option String → String → String
text_or none s = s
text_or (some t) s = t

unfoldable pub event_outcome : QuarantineResolutionEvent → String
event_outcome e = text_or (non_empty e.outcome) (action_value e.action)

-- `_result_from_event`
unfoldable pub result_from_event : String → QuarantineResolutionEvent → ResolutionResult
unfolding event_success operation_counters event_outcome
result_from_event record_id e = record {
  record_id = record_id;
  success = event_success e;
  status = some e.to_status;
  outcome = event_outcome e;
  action = e.action;
  reason = some e.reason;
  errors = [];
  quality_counters =
      if is_notice (event_outcome e) then none else some (operation_counters (event_outcome e));
  failure_classification = none;
  action_id = e.action_id;
  previous_status = some e.from_status;
  attempt_count = some e.attempt;
  source_evidence_available = as_flag (metadata_of "sourceEvidenceAvailable" e.metadata);
  escalation_level = as_count (metadata_of "escalationLevel" e.metadata);
  claimed_by = as_text (metadata_of "claimedBy" e.metadata);
  priority = priority_of (as_text (metadata_of "priority" e.metadata));
  review_due_at = as_instant (metadata_of "reviewDueAt" e.metadata);
}

abbrev is_claim_outcome : Option String → Bool
is_claim_outcome o = same_key o (some "CLAIMED")

abbrev is_reprocess : QuarantineAction → Bool
is_reprocess reprocess = true
is_reprocess _ = false

abbrev outcome_mismatch : Option String → QuarantineAction → QuarantineResolutionEvent → Bool
outcome_mismatch (some expected) action e = not (same_key e.outcome (some expected))
outcome_mismatch none action e = is_reprocess action && is_claim_outcome e.outcome

-- `action_mismatch` of `_replayed_action`
unfoldable pub action_mismatch :
    String → QuarantineAction → Option String → QuarantineResolutionEvent → Bool
action_mismatch operator_id action expected e =
    (not (str_eq e.actor operator_id) || not (same_action e.action action))
    || outcome_mismatch expected action e

-- `_replayed_action`, on the event that was found.
unfoldable pub replay_of :
    String
    → String
    → String
    → QuarantineAction
    → Option String
    → QuarantineResolutionEvent
    → ResolutionResult
unfolding action_mismatch result_from_event
replay_of record_id action_id operator_id action expected e =
    if action_mismatch operator_id action expected e
    then record (plain_result record_id false (some e.to_status) "ACTION_ID_REUSE_CONFLICT"
        action) {
          reason = some "Action ID was already used by another operator action.";
          action_id = some action_id;
          previous_status = some e.from_status;
          attempt_count = some e.attempt;
        }
    else result_from_event record_id e
