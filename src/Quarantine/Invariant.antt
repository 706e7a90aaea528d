-- ===== src/Quarantine/Invariant.antt =====
-- The invariant of a quarantine record: every step of its lifecycle keeps the record in order.
use reconciliation_ingestion.Prelude.{
  ℕ, ◌+◌, String, true, false, ◌&&◌, ◌||◌, not, Option, none, some, List, [], ◌∷◌, ◌++◌, count_if,
  same_key, ◌==◌, is_some, length, ◌≡◌, refl, sym, ◌∙◌, arith, subst,
}
use reconciliation_ingestion.Quarantine.Types.{
  IngestionQuarantineRecord, QuarantineResolutionEvent, QuarantineStatus, is_pending,
  is_reprocessing, is_terminal, same_status, QuarantineAction, reprocess,
}
use reconciliation_ingestion.Quarantine.Updates.{
  is_unused, is_claimable, claimed, claim_event, is_reclaimable, reclaimed, is_reservable, reserved,
  is_owned, released, resolved, end_event, Tick, Evidence,
}
use reconciliation_ingestion.Quarantine.Escalation.{
  is_escalatable, escalated, escalate_event, target_level,
}
use reconciliation_ingestion.Quarantine.Lifecycle.{
  unclaimed, Step, claiming, reclaiming, reserving, releasing, resolving, escalating, is_new,
  Reachable, created, stepped, fields_in_order, is_claim_event, is_fresh, actions_distinct,
  IsInOrder,
}
use reconciliation_ingestion.Quarantine.History.{
  &&-left, &&-right, not-true, count_if-append, actions_distinct-append,
}

-- A record whose status is known has the fields of that status.
fields_where_pending :
    (d : IngestionQuarantineRecord) (s : QuarantineStatus)
    → is_pending s ≡ true
    → fields_in_order d s ≡ true
    → is_some d.retention_until ≡ false
fields_where_pending d QuarantineStatus.pending p h = not-true _ (&&-right _ _ h)
fields_where_pending d QuarantineStatus.reprocessing p h = cc p
fields_where_pending d QuarantineStatus.resolved p h = cc p
fields_where_pending d QuarantineStatus.rejected p h = cc p

fields_where_reprocessing :
    (d : IngestionQuarantineRecord) (s : QuarantineStatus)
    → is_reprocessing s ≡ true
    → fields_in_order d s ≡ true
    → is_some d.retention_until ≡ false
fields_where_reprocessing d QuarantineStatus.reprocessing p h = not-true _ (&&-right _ _ h)
fields_where_reprocessing d QuarantineStatus.pending p h = cc p
fields_where_reprocessing d QuarantineStatus.resolved p h = cc p
fields_where_reprocessing d QuarantineStatus.rejected p h = cc p

-- What the invariant says of a record with one more event.
abbrev HasCounted : ℕ → List QuarantineResolutionEvent → Type 0
HasCounted n es = (n ≡ 1 + count_if is_claim_event es) × (actions_distinct es ≡ true)

HasCounted-append :
    (n : ℕ) (es : List QuarantineResolutionEvent) (e : QuarantineResolutionEvent)
    → HasCounted n es
    → is_fresh e.action_id es ≡ true
    → HasCounted (n + count_if is_claim_event (e ∷ [])) (es ++ (e ∷ []))
HasCounted-append n es e h f =
    (omega (arith, h.0, count_if-append is_claim_event es e), actions_distinct-append es e h.1 f)

is_fresh-of_unused :
    (a : Option String) (d : IngestionQuarantineRecord)
    → is_unused a d ≡ true
    → is_fresh a d.resolution_history ≡ true
is_fresh-of_unused none d h = refl
is_fresh-of_unused (some a) d h = h

unused-of_owned :
    (operator_id : String) (action_id : Option String) (now : ℕ)
    (seen d : IngestionQuarantineRecord)
    → is_owned operator_id action_id now seen d ≡ true
    → is_unused action_id d ≡ true
unfolding is_owned
unused-of_owned operator_id action_id now seen d p = &&-left _ _ (
    &&-right (same_key d.claimed_by (some operator_id)) _ (&&-right (is_reprocessing d.status) _ p))

unused-of_escalatable :
    (operator_id action_id : String) (now : ℕ) (seen d : IngestionQuarantineRecord)
    → is_escalatable operator_id action_id now seen d ≡ true
    → is_unused (some action_id) d ≡ true
unfolding is_escalatable
unused-of_escalatable operator_id action_id now seen d p = &&-left _ _ (
    &&-right (not (is_reprocessing seen.status) || same_key d.claimed_by (some operator_id)) _ (
      &&-right (d.escalation_level == seen.escalation_level) _
        (&&-right (same_status seen.status d.status) _ p)))

-- A reservation and an escalation leave what the invariant reads of a record that is worked on.
fields_in_order-reserved :
    (d : IngestionQuarantineRecord) (operator_id action_id : String) (a : QuarantineAction)
    (now : ℕ) (s : QuarantineStatus)
    → is_reprocessing s ≡ true
    → fields_in_order (reserved operator_id action_id a now d) s ≡ fields_in_order d s
unfolding reserved
fields_in_order-reserved d operator_id action_id a now QuarantineStatus.reprocessing p = refl
fields_in_order-reserved d operator_id action_id a now QuarantineStatus.pending p = cc p
fields_in_order-reserved d operator_id action_id a now QuarantineStatus.resolved p = cc p
fields_in_order-reserved d operator_id action_id a now QuarantineStatus.rejected p = cc p

fields_in_order-escalated :
    (seen d : IngestionQuarantineRecord) (operator_id action_id reason : String) (tick : Tick)
    (s : QuarantineStatus)
    → fields_in_order (escalated operator_id action_id reason tick seen d) s ≡ fields_in_order d s
unfolding escalated
fields_in_order-escalated seen d operator_id action_id reason tick QuarantineStatus.pending = refl
fields_in_order-escalated seen d operator_id action_id reason tick QuarantineStatus.reprocessing =
    refl
fields_in_order-escalated seen d operator_id action_id reason tick QuarantineStatus.resolved = refl
fields_in_order-escalated seen d operator_id action_id reason tick QuarantineStatus.rejected = refl

fields_in_order-resolved :
    (days : ℕ) (target : QuarantineStatus) (operator_id : String) (a : QuarantineAction)
    (ev : Evidence) (tick : Tick) (seen d : IngestionQuarantineRecord)
    → is_terminal target ≡ true
    → fields_in_order (resolved days target operator_id a ev tick seen d) target ≡ true
unfolding resolved
fields_in_order-resolved days QuarantineStatus.resolved operator_id a ev tick seen d t = refl
fields_in_order-resolved days QuarantineStatus.rejected operator_id a ev tick seen d t = refl
fields_in_order-resolved days QuarantineStatus.pending operator_id a ev tick seen d t = cc t
fields_in_order-resolved days QuarantineStatus.reprocessing operator_id a ev tick seen d t = cc t

is_claim_event-same : (s : QuarantineStatus) → (is_pending s && is_reprocessing s) ≡ false
is_claim_event-same QuarantineStatus.pending = refl
is_claim_event-same QuarantineStatus.reprocessing = refl
is_claim_event-same QuarantineStatus.resolved = refl
is_claim_event-same QuarantineStatus.rejected = refl

-- An event that is not a claim's keeps the count of the attempts.
HasCounted-other :
    (n : ℕ) (es : List QuarantineResolutionEvent) (e : QuarantineResolutionEvent)
    → HasCounted n es
    → is_claim_event e ≡ false
    → is_fresh e.action_id es ≡ true
    → HasCounted n (es ++ (e ∷ []))
HasCounted-other n es e h c f = (
  omega (arith, h.0, count_if-append is_claim_event es e, count_if-none e c),
  actions_distinct-append es e h.1 f,
)
  where
    count_if-none :
        (x : QuarantineResolutionEvent)
        → is_claim_event x ≡ false
        → count_if is_claim_event (x ∷ []) ≡ 0
    count_if-none x p = rw (p, count_if) refl

IsInOrder-Step : (d e : IngestionQuarantineRecord) → Step d e → IsInOrder d → IsInOrder e
unfolding IsInOrder claimed is_claimable claim_event reclaimed is_reclaimable reserved is_reservable
    released is_owned end_event resolved escalated escalate_event is_escalatable target_level
IsInOrder-Step d _ (claiming operator_id lease action_id tick seen p) h = (
  rw (fields_where_pending d d.status (&&-left _ _ p) h.0) refl,
  (
    h.1.0,
    HasCounted-append d.attempt_count d.resolution_history
        (claim_event operator_id lease action_id tick seen) h.1.1
        (is_fresh-of_unused action_id d (&&-right (is_pending d.status) _ p)),
  ),
)
IsInOrder-Step d _ (reclaiming now p) h =
    (rw (fields_where_reprocessing d d.status (&&-left _ _ p) h.0) refl, h.1)
IsInOrder-Step d _ (reserving operator_id action_id a now p) h =
    (fields_in_order-reserved d operator_id action_id a now d.status (&&-left _ _ p) ∙ h.0, h.1)
IsInOrder-Step d _ (releasing operator_id ev tick seen p) h = (
  rw (fields_where_reprocessing d d.status (&&-left _ _ p) h.0) refl,
  (
    h.1.0,
    HasCounted-other d.attempt_count d.resolution_history
        (end_event operator_id QuarantineStatus.pending reprocess ev tick seen) h.1.1 refl
        (is_fresh-of_unused ev.action_id d
          (unused-of_owned operator_id ev.action_id tick.now seen d p)),
  ),
)
IsInOrder-Step d _ (resolving days target operator_id a ev tick seen t p) h = (
  fields_in_order-resolved days target operator_id a ev tick seen d t,
  (
    h.1.0,
    HasCounted-other d.attempt_count d.resolution_history
        (end_event operator_id target a ev tick seen) h.1.1 refl
        (is_fresh-of_unused ev.action_id d
          (unused-of_owned operator_id ev.action_id tick.now seen d p)),
  ),
)
IsInOrder-Step d _ (escalating operator_id action_id reason expected tick seen m p) h = (
  fields_in_order-escalated seen d operator_id action_id reason tick d.status ∙ h.0,
  (
    omega arith,
    HasCounted-other d.attempt_count d.resolution_history
        (escalate_event operator_id action_id reason tick seen) h.1.1
        (is_claim_event-same seen.status)
        (unused-of_escalatable operator_id action_id tick.now seen d p),
  ),
)

fields_in_order-new :
    (d : IngestionQuarantineRecord) (s : QuarantineStatus)
    → is_pending s ≡ true
    → (unclaimed d && not (is_some d.retention_until)) ≡ true
    → fields_in_order d s ≡ true
fields_in_order-new d QuarantineStatus.pending p h = h
fields_in_order-new d QuarantineStatus.reprocessing p h = cc p
fields_in_order-new d QuarantineStatus.resolved p h = cc p
fields_in_order-new d QuarantineStatus.rejected p h = cc p

HasCounted-new : (es : List QuarantineResolutionEvent) → (length es == 0) ≡ true → HasCounted 1 es
HasCounted-new [] h = (refl, refl)
HasCounted-new (e ∷ es) h = absurd (ground arith)

IsInOrder-new : (d : IngestionQuarantineRecord) → is_new d ≡ true → IsInOrder d
unfolding IsInOrder
IsInOrder-new d n = (
  fields_in_order-new d d.status (&&-left _ _ n) (ground arith),
  (
    ground arith,
    subst (λ k. HasCounted k d.resolution_history) (sym (the_attempt d n))
        (HasCounted-new d.resolution_history (ground arith)),
  ),
)
  where
    the_attempt : (d : IngestionQuarantineRecord) → is_new d ≡ true → d.attempt_count ≡ 1
    the_attempt d n = ground arith

-- Whatever operations a quarantine record goes through, by any operators with copies as old as they may be:
-- it has an owner, a time and an end of the claim exactly while it is REPROCESSING; it has an end of its
-- retention exactly when it is RESOLVED or REJECTED, and then no action is reserved any more; it is escalated
-- three times at most; its attempts are one more than the claims of its history; and no action identifier
-- stands twice in its history.
pub Reachable-IsInOrder_record : (d : IngestionQuarantineRecord) → Reachable d → IsInOrder d
Reachable-IsInOrder_record _ (created d n) = IsInOrder-new d n
Reachable-IsInOrder_record _ (stepped d e r s) =
    IsInOrder-Step d e s (Reachable-IsInOrder_record d r)
