-- ===== src/Quarantine/Lifecycle.antt =====
-- The lifecycle of a quarantine record: the updates of
-- src/infrastructure/ingestion/quarantine_repository.py as steps, each under its filter and the early returns
-- of its operation, with a copy of the record as old as it may be.
use reconciliation_ingestion.Prelude.{
  ℕ, ◌+◌, ◌≤◌, String, Bool, true, ◌&&◌, not, Option, none, some, List, [], ◌∷◌, any, count_if,
  ◌==◌, is_some, length, ◌≡◌,
}
use reconciliation_ingestion.Quarantine.Types.{
  IngestionQuarantineRecord, QuarantineResolutionEvent, QuarantineStatus, QuarantineAction,
  is_pending, is_reprocessing, is_terminal,
}
use reconciliation_ingestion.Quarantine.Updates.{
  Tick, Evidence, has_action, is_claimable, claimed, is_reclaimable, reclaimed, is_reservable,
  reserved, is_owned, released, resolved,
}
use reconciliation_ingestion.Quarantine.Escalation.{may_escalate, is_escalatable, escalated}

-- One update of a stored record by one of the operations.
pub data Step (d : IngestionQuarantineRecord) : IngestionQuarantineRecord → Type 0 where
  claiming :
      (operator_id : String) (lease : ℕ) (action_id : Option String) (tick : Tick)
      (seen : IngestionQuarantineRecord)
      → is_claimable action_id d ≡ true
      → Step d (claimed operator_id lease action_id tick seen d)
  reclaiming : (now : ℕ) → is_reclaimable now d ≡ true → Step d (reclaimed now d)
  reserving :
      (operator_id action_id : String) (a : QuarantineAction) (now : ℕ)
      → is_reservable operator_id action_id d ≡ true
      → Step d (reserved operator_id action_id a now d)
  releasing :
      (operator_id : String) (ev : Evidence) (tick : Tick) (seen : IngestionQuarantineRecord)
      → is_owned operator_id ev.action_id tick.now seen d ≡ true
      → Step d (released operator_id ev tick seen d)
  resolving :
      (days : ℕ) (target : QuarantineStatus) (operator_id : String) (a : QuarantineAction)
      (ev : Evidence) (tick : Tick) (seen : IngestionQuarantineRecord)
      → is_terminal target ≡ true
      → is_owned operator_id ev.action_id tick.now seen d ≡ true
      → Step d (resolved days target operator_id a ev tick seen d)
  escalating :
      (operator_id action_id reason : String) (expected : QuarantineStatus) (tick : Tick)
      (seen : IngestionQuarantineRecord)
      → may_escalate operator_id expected tick.now seen ≡ true
      → is_escalatable operator_id action_id tick.now seen d ≡ true
      → Step d (escalated operator_id action_id reason tick seen d)

-- A record as it is made: with the defaults of its fields, whatever its row and its errors are.
abbrev pub is_new : IngestionQuarantineRecord → Bool
is_new d =
    is_pending d.status
    && (not (is_some d.claimed_by)
        && (not (is_some d.claimed_at)
            && (not (is_some d.claim_expires_at)
                && (not (is_some d.retention_until)
                    && (not (is_some d.active_action)
                        && (d.escalation_level == 0
                            && (d.attempt_count == 1 && length d.resolution_history == 0)))))))

-- The records that the operations can make of a new one.
pub data Reachable : IngestionQuarantineRecord → Type 0 where
  created : (d : IngestionQuarantineRecord) → is_new d ≡ true → Reachable d
  stepped : (d e : IngestionQuarantineRecord) → Reachable d → Step d e → Reachable e

abbrev pub unclaimed : IngestionQuarantineRecord → Bool
unclaimed d =
    not (is_some d.claimed_by) && (not (is_some d.claimed_at) && not (is_some d.claim_expires_at))

-- What the fields are, by the status.
abbrev pub fields_in_order : IngestionQuarantineRecord → QuarantineStatus → Bool
fields_in_order d QuarantineStatus.pending = unclaimed d && not (is_some d.retention_until)
fields_in_order d QuarantineStatus.reprocessing =
    (is_some d.claimed_by && (is_some d.claimed_at && is_some d.claim_expires_at))
    && not (is_some d.retention_until)
fields_in_order d _ = unclaimed d && (is_some d.retention_until && not (is_some d.active_action))

-- The event of a claim: no other event goes from PENDING to REPROCESSING.
abbrev pub is_claim_event : QuarantineResolutionEvent → Bool
is_claim_event e = is_pending e.from_status && is_reprocessing e.to_status

-- The identifier of an event does not occur among the events.
abbrev pub is_fresh : Option String → List QuarantineResolutionEvent → Bool
is_fresh none es = true
is_fresh (some a) es = not (any (has_action a) es)

-- No identifier of an action occurs twice.
abbrev pub actions_distinct : List QuarantineResolutionEvent → Bool
actions_distinct [] = true
actions_distinct (e ∷ es) = is_fresh e.action_id es && actions_distinct es

unfoldable pub IsInOrder : IngestionQuarantineRecord → Type 0
IsInOrder d =
    (fields_in_order d d.status ≡ true)
    × ((d.escalation_level ≤ 3)
        × ((d.attempt_count ≡ 1 + count_if is_claim_event d.resolution_history)
            × (actions_distinct d.resolution_history ≡ true)))
