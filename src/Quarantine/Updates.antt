-- ===== src/Quarantine/Updates.antt =====
-- The queries and the updates of src/infrastructure/ingestion/quarantine_repository.py, on one document. `seen` is
-- the copy of the document that the operation has read before, which may be out of date.
use reconciliation_ingestion.Prelude.{
  ℕ, ◌+◌, ◌*◌, String, Bool, true, false, ◌&&◌, not, Option, none, some, [], ◌∷◌, ◌++◌, any,
  same_key, ltb, leb, is_some, if◌then◌else◌,
}
use reconciliation_ingestion.Result.{Result, ok, err, value_error}
use reconciliation_ingestion.Quarantine.Texts.{strip, text_length, first_chars}
use reconciliation_ingestion.Quarantine.Values.{
  Value, Entries, no_entries, entry, null, integer, instant, string, bounded_metadata,
}
use reconciliation_ingestion.Quarantine.Types.{
  IngestionQuarantineRecord, QuarantineResolutionEvent, QuarantineStatus, QuarantineAction,
  QuarantinePriority, normal, high, reprocess, is_pending, is_reprocessing,
}

-- The readings of the clock and the fresh identifier of one operation.
pub record Tick : Type 0 where
  pub now : ℕ
  pub event_time : ℕ
  pub event_id : String

-- `_bounded_text`
unfoldable pub bounded_text : String → String
unfolding strip
bounded_text value = first_chars 500 (strip value)

-- `_bounded_action_id`
unfoldable pub bounded_action_id : Option String → Result (Option String)
unfolding strip
bounded_action_id none = ok none
bounded_action_id (some a) =
    let s = strip a in
    if leb 1 (text_length s) && leb (text_length s) 128
    then ok (some s)
    else err (value_error "action_id must be 1 to 128 characters")

-- An event's action identifier is this one.
abbrev pub has_action : String → QuarantineResolutionEvent → Bool
has_action a e = same_key e.action_id (some a)

-- {"resolutionHistory.actionId": {"$ne": action_id}}, where there is an identifier
abbrev pub is_unused : Option String → IngestionQuarantineRecord → Bool
is_unused none d = true
is_unused (some a) d = not (any (has_action a) d.resolution_history)

-- `_claim_expired`
unfoldable pub claim_expired : Option ℕ → ℕ → Bool
claim_expired none now = false
claim_expired (some expiration) now = leb expiration now

-- {"$lte": t} and {"$gt": t}, which match no missing value
abbrev pub at_most : Option ℕ → ℕ → Bool
at_most none t = false
at_most (some x) t = leb x t

abbrev pub later_than : Option ℕ → ℕ → Bool
later_than none t = false
later_than (some x) t = ltb t x

abbrev pub priority_value : QuarantinePriority → String
priority_value normal = "NORMAL"
priority_value high = "HIGH"

abbrev pub optional_text : Option String → Value
optional_text none = null
optional_text (some s) = string s

-- An ISO text of a time stands as the time.
abbrev pub optional_instant : Option ℕ → Value
optional_instant none = null
optional_instant (some t) = instant t

-- `claim`: its filter, its event and its update.
unfoldable pub is_claimable : Option String → IngestionQuarantineRecord → Bool
is_claimable action_id d = is_pending d.status && is_unused action_id d

unfoldable pub claim_event :
    String → ℕ → Option String → Tick → IngestionQuarantineRecord → QuarantineResolutionEvent
claim_event operator_id lease_seconds action_id tick seen = record {
  event_id = tick.event_id;
  from_status = QuarantineStatus.pending;
  to_status = QuarantineStatus.reprocessing;
  action = reprocess;
  actor = operator_id;
  reason = "Quarantine record claimed for processing.";
  attempt = seen.attempt_count + 1;
  action_id = action_id;
  outcome = some "CLAIMED";
  timestamp = tick.event_time;
  metadata = entry "leaseSeconds" (integer lease_seconds) (
      entry "claimedBy" (string operator_id) (
        entry "priority" (string (priority_value seen.priority))
          (entry "reviewDueAt" (optional_instant seen.review_due_at) no_entries)));
}

unfoldable pub claimed :
    String
    → ℕ
    → Option String
    → Tick
    → IngestionQuarantineRecord
    → IngestionQuarantineRecord
    → IngestionQuarantineRecord
unfolding claim_event
claimed operator_id lease_seconds action_id tick seen d = record d {
  status = QuarantineStatus.reprocessing;
  claimed_by = some operator_id;
  claimed_at = some tick.now;
  claim_expires_at = some (tick.now + lease_seconds);
  last_attempt_error = none;
  last_action_id = action_id;
  updated_at = tick.now;
  attempt_count = d.attempt_count + 1;
  resolution_history =
      d.resolution_history ++ (claim_event operator_id lease_seconds action_id tick seen ∷ []);
}

-- `reclaim_expired_claim`
unfoldable pub is_reclaimable : ℕ → IngestionQuarantineRecord → Bool
is_reclaimable now d = is_reprocessing d.status && at_most d.claim_expires_at now

unfoldable pub reclaimed : ℕ → IngestionQuarantineRecord → IngestionQuarantineRecord
reclaimed now d = record d {
  status = QuarantineStatus.pending;
  claimed_by = none;
  claimed_at = none;
  claim_expires_at = none;
  last_attempt_error = some "Operator claim lease expired.";
  updated_at = now;
}

-- `reserve_action`
unfoldable pub is_reservable : String → String → IngestionQuarantineRecord → Bool
is_reservable operator_id action_id d =
    is_reprocessing d.status
    && (same_key d.claimed_by (some operator_id)
        && (is_unused (some action_id) d && not (is_some d.active_action)))

unfoldable pub reserved :
    String → String → QuarantineAction → ℕ → IngestionQuarantineRecord → IngestionQuarantineRecord
reserved operator_id action_id a now d = record d {
  active_action =
      some (record { action_id = action_id; actor = operator_id; action = a; started_at = now });
}

-- The filter of `release_for_retry` and `resolve`.
abbrev pub lease_is_live : Option ℕ → ℕ → IngestionQuarantineRecord → Bool
lease_is_live none now d = true
lease_is_live (some expiration) now d = later_than d.claim_expires_at now

unfoldable pub is_owned :
    String → Option String → ℕ → IngestionQuarantineRecord → IngestionQuarantineRecord → Bool
is_owned operator_id action_id now seen d =
    is_reprocessing d.status
    && (same_key d.claimed_by (some operator_id)
        && (is_unused action_id d && lease_is_live seen.claim_expires_at now d))

-- What `release_for_retry` and `resolve` are told of the action.
pub record Evidence : Type 0 where
  pub reason : String
  pub metadata : Entries
  pub action_id : Option String
  pub outcome : Option String

unfoldable pub end_event :
    String
    → QuarantineStatus
    → QuarantineAction
    → Evidence
    → Tick
    → IngestionQuarantineRecord
    → QuarantineResolutionEvent
unfolding bounded_text bounded_metadata
end_event operator_id target a ev tick seen = record {
  event_id = tick.event_id;
  from_status = QuarantineStatus.reprocessing;
  to_status = target;
  action = a;
  actor = operator_id;
  reason = bounded_text ev.reason;
  attempt = seen.attempt_count;
  action_id = ev.action_id;
  outcome = ev.outcome;
  timestamp = tick.event_time;
  metadata = bounded_metadata ev.metadata;
}

-- The update of `release_for_retry`.
unfoldable pub released :
    String
    → Evidence
    → Tick
    → IngestionQuarantineRecord
    → IngestionQuarantineRecord
    → IngestionQuarantineRecord
unfolding bounded_text end_event
released operator_id ev tick seen d = record d {
  status = QuarantineStatus.pending;
  claimed_by = none;
  claimed_at = none;
  claim_expires_at = none;
  last_attempt_error = some (bounded_text ev.reason);
  last_action_id = ev.action_id;
  updated_at = tick.now;
  resolution_history =
      d.resolution_history
      ++ (end_event operator_id QuarantineStatus.pending reprocess ev tick seen ∷ []);
  active_action = none;
}

-- The update of `resolve`.
unfoldable pub resolved :
    ℕ
    → QuarantineStatus
    → String
    → QuarantineAction
    → Evidence
    → Tick
    → IngestionQuarantineRecord
    → IngestionQuarantineRecord
    → IngestionQuarantineRecord
unfolding bounded_metadata end_event
resolved days target operator_id a ev tick seen d = record d {
  status = target;
  claimed_by = none;
  claimed_at = none;
  claim_expires_at = none;
  last_attempt_error = none;
  resolution_metadata = bounded_metadata ev.metadata;
  retention_until = some (tick.now + days * 86400);
  last_action_id = ev.action_id;
  updated_at = tick.now;
  resolution_history = d.resolution_history ++ (end_event operator_id target a ev tick seen ∷ []);
  active_action = none;
}
