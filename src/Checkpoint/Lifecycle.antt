-- ===== src/Checkpoint/Lifecycle.antt =====
-- The lifecycle of a checkpoint document: the updates of
-- src/infrastructure/ingestion/checkpoint_repository.py as steps, each under its query.
use text.Mathlib.TextEquality.{eq_iff}
use reconciliation_ingestion.Prelude.{
  ℕ, String, Bool, true, ◌&&◌, List, Option, none, some, same_key, is_some, ◌≡◌, refl, sym, ◌∙◌,
  arith, Bool-cases, inl, inr,
}
use reconciliation_ingestion.Checkpoint.Types.{
  IngestionCheckpoint, CheckpointStatus, HighWaterMark, ResolutionAction, is_processing,
}
use reconciliation_ingestion.Checkpoint.ClaimQuery.{
  Tick, ClaimRequest, is_claimable, claimed, exhausted, is_stale, new_checkpoint,
}
use reconciliation_ingestion.Checkpoint.Updates.{
  is_held, is_blocked_on, is_completed_on, resolved, advanced_to_next, completed_with, failed_with,
  released, blocks, block, retry_later,
}
use reconciliation_ingestion.Checkpoint.ReviewUpdates.{
  CompletedUnit, is_retryable_on, retry_requested, is_under_review, stream_completed, stream_failed,
}
use reconciliation_ingestion.Checkpoint.Fencing.{Ending, complete, fail, release, ending}

-- One update of a stored document by one of the operations.
pub data Step (d : IngestionCheckpoint) : IngestionCheckpoint → Type 0 where
  claiming :
      (r : ClaimRequest) (tick : Tick) (seen : IngestionCheckpoint)
      → is_claimable r tick.now d ≡ true
      → Step d (claimed r tick seen d)
  exhausting :
      (tick : Tick) (e : IngestionCheckpoint) → is_stale e d ≡ true → Step d (exhausted tick e d)
  ending_unit :
      (h : IngestionCheckpoint) (unit_key : String) (e : Ending) (tick : Tick)
      → is_held h.claim_id unit_key d ≡ true
      → Step d (ending h unit_key e tick d)
  resolving :
      (h : IngestionCheckpoint) (unit_key : String) (a : ResolutionAction)
      (reason operator_id : String) (tick : Tick)
      → is_blocked_on unit_key d ≡ true
      → Step d (resolved h unit_key a reason operator_id tick d)
  advancing :
      (unit_key : String) (tick : Tick)
      → is_completed_on unit_key d ≡ true
      → Step d (advanced_to_next tick d)
  requesting_retry :
      (h : IngestionCheckpoint) (unit_key operator_id reason : String) (tick : Tick)
      → is_retryable_on unit_key d ≡ true
      → Step d (retry_requested h unit_key operator_id reason tick d)
  closing_stream :
      (h : IngestionCheckpoint) (unit_key : String) (cursor : Option String)
      (mark : Option HighWaterMark) (units : List CompletedUnit) (tick : Tick)
      → is_under_review d ≡ true
      → Step d (stream_completed h unit_key cursor mark units tick d)
  failing_stream :
      (h : IngestionCheckpoint) (unit_key error error_code : String) (tick : Tick)
      → is_under_review d ≡ true
      → Step d (stream_failed h unit_key error error_code tick d)

-- The documents that the operations can make of a new one.
pub data Reachable : IngestionCheckpoint → Type 0 where
  created : (r : ClaimRequest) (now : ℕ) → Reachable (new_checkpoint r now)
  stepped : (d e : IngestionCheckpoint) → Reachable d → Step d e → Reachable e

-- The tests of the invariant, by the status.
abbrev in_order : IngestionCheckpoint → CheckpointStatus → Bool
in_order d CheckpointStatus.processing =
    is_some d.current_unit_key && (is_some d.claim_id && is_some d.started_at)
in_order d CheckpointStatus.completed =
    is_some d.current_unit_key && same_key d.last_completed_unit_key d.current_unit_key
in_order d CheckpointStatus.failed = is_some d.current_unit_key
in_order d CheckpointStatus.blocked =
    is_some d.current_unit_key && (is_some d.blocked_at && is_some d.blocked_reason)
in_order d _ = true

pub IsInOrder : IngestionCheckpoint → Type 0
IsInOrder d = in_order d d.status ≡ true

same_key-is_some : (k : Option String) (u : String) → same_key k (some u) ≡ true → is_some k ≡ true
same_key-is_some none u p = cc p
same_key-is_some (some k) u p = refl

same_key-sym :
    (k : Option String) (u : String) → same_key k (some u) ≡ true → same_key (some u) k ≡ true
same_key-sym none u p = cc p
same_key-sym (some k) u p = (eq_iff u k).1 (sym ((eq_iff k u).0 p))

&&-left : (a b : Bool) → (a && b) ≡ true → a ≡ true
&&-left a b p = ground arith

&&-right : (a b : Bool) → (a && b) ≡ true → b ≡ true
&&-right a b p = ground arith

-- A document that is being processed names its unit.
processing-unit :
    (d : IngestionCheckpoint) (t : CheckpointStatus)
    → is_processing t ≡ true
    → in_order d t ≡ true
    → is_some d.current_unit_key ≡ true
processing-unit d CheckpointStatus.processing p h = &&-left _ _ h
processing-unit d CheckpointStatus.absent p h = cc p
processing-unit d CheckpointStatus.discovered p h = cc p
processing-unit d CheckpointStatus.completed p h = cc p
processing-unit d CheckpointStatus.failed p h = h
processing-unit d CheckpointStatus.blocked p h = cc p

-- The update of a manual retry leaves what the invariant reads.
in_order-retry_requested :
    (h : IngestionCheckpoint) (unit_key operator_id reason : String) (tick : Tick)
    (d : IngestionCheckpoint) (t : CheckpointStatus)
    → in_order (retry_requested h unit_key operator_id reason tick d) t ≡ in_order d t
unfolding retry_requested
in_order-retry_requested h unit_key operator_id reason tick d CheckpointStatus.processing = refl
in_order-retry_requested h unit_key operator_id reason tick d CheckpointStatus.absent = refl
in_order-retry_requested h unit_key operator_id reason tick d CheckpointStatus.discovered = refl
in_order-retry_requested h unit_key operator_id reason tick d CheckpointStatus.completed = refl
in_order-retry_requested h unit_key operator_id reason tick d CheckpointStatus.failed = refl
in_order-retry_requested h unit_key operator_id reason tick d CheckpointStatus.blocked = refl

-- Who ends a unit leaves its document in order.
IsInOrder-ending :
    (h : IngestionCheckpoint) (unit_key : String) (e : Ending) (tick : Tick)
    (d : IngestionCheckpoint)
    → same_key d.current_unit_key (some unit_key) ≡ true
    → IsInOrder (ending h unit_key e tick d)
unfolding ending completed_with failed_with released block retry_later IsInOrder
IsInOrder-ending h unit_key (complete cursor mark) tick d p =
    rw (same_key-is_some d.current_unit_key unit_key p) (same_key-sym d.current_unit_key unit_key p)
IsInOrder-ending h unit_key (fail f) tick d p = elim (Bool-cases (blocks h f)) [
  | inl b ↦ rw b (rw (same_key-is_some d.current_unit_key unit_key p) refl)
  | inr b ↦ rw b (same_key-is_some d.current_unit_key unit_key p)
]
IsInOrder-ending h unit_key (release reason) tick d p = refl

IsInOrder-Step : (d e : IngestionCheckpoint) → Step d e → IsInOrder d → IsInOrder e
unfolding IsInOrder claimed exhausted is_stale is_held resolved advanced_to_next stream_completed
    stream_failed retry_requested
IsInOrder-Step d _ (claiming r tick seen p) h = refl
IsInOrder-Step d _ (exhausting tick e p) h =
    rw
      (processing-unit d d.status (&&-right (same_key d.current_unit_key e.current_unit_key) _ p) h)
      refl
IsInOrder-Step d _ (ending_unit g unit_key e tick p) h =
    IsInOrder-ending g unit_key e tick d (&&-left (same_key d.current_unit_key (some unit_key)) _ p)
IsInOrder-Step d _ (resolving g unit_key a reason operator_id tick p) h = refl
IsInOrder-Step d _ (advancing unit_key tick p) h = refl
IsInOrder-Step d _ (requesting_retry g unit_key operator_id reason tick p) h =
    in_order-retry_requested g unit_key operator_id reason tick d d.status ∙ h
IsInOrder-Step d _ (closing_stream g unit_key cursor mark units tick p) h = refl
IsInOrder-Step d _ (failing_stream g unit_key error error_code tick p) h = refl

-- Whatever operations a stream's document goes through, by any workers and operators with copies as old as
-- they may be: while it is being processed it names its unit, its claim and its start; when it is completed
-- its last completed unit is its current one; when it has failed it names its unit; and when it is blocked
-- it names its unit, the time and the reason.
pub Reachable-IsInOrder : (d : IngestionCheckpoint) → Reachable d → IsInOrder d
unfolding IsInOrder new_checkpoint
Reachable-IsInOrder _ (created r now) = refl
Reachable-IsInOrder _ (stepped d e p q) = IsInOrder-Step d e q (Reachable-IsInOrder d p)
