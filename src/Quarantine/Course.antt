-- ===== src/Quarantine/Course.antt =====
-- The course of a quarantine record over many steps: its transitions, its end, and its history.
use reconciliation_ingestion.Prelude.{
  ℕ, String, true, ◌||◌, List, [], ◌∷◌, ◌++◌, any, ◌≡◌, refl, sym, ap, ◌∙◌, arith, ◌⊎◌, inl, inr,
  subst,
}
use reconciliation_ingestion.Quarantine.Types.{
  IngestionQuarantineRecord, QuarantineResolutionEvent, QuarantineStatus, is_pending,
  is_reprocessing, is_terminal, is_active, same_status, allowed_transitions,
}
use reconciliation_ingestion.Quarantine.Updates.{
  is_claimable, claimed, is_reclaimable, reclaimed, is_reservable, reserved, is_owned, released,
  resolved,
}
use reconciliation_ingestion.Quarantine.Escalation.{may_escalate, is_escalatable, escalated}
use reconciliation_ingestion.Quarantine.Lifecycle.{
  Step, claiming, reclaiming, reserving, releasing, resolving, escalating,
}
use reconciliation_ingestion.Quarantine.History.{&&-left}

-- Any number of steps.
pub data Steps (d : IngestionQuarantineRecord) : IngestionQuarantineRecord → Type 0 where
  none_yet : Steps d d
  further : (e f : IngestionQuarantineRecord) → Steps d e → Step e f → Steps d f

-- The status is kept, or changed as the table of transitions allows.
abbrev pub IsAllowed : QuarantineStatus → QuarantineStatus → Type 0
IsAllowed s t = (s ≡ t) ⊎ (any (same_status t) (allowed_transitions s) ≡ true)

from_pending :
    (s : QuarantineStatus) → is_pending s ≡ true → IsAllowed s QuarantineStatus.reprocessing
unfolding allowed_transitions
from_pending QuarantineStatus.pending p = inr refl
from_pending QuarantineStatus.reprocessing p = inl refl
from_pending QuarantineStatus.resolved p = cc p
from_pending QuarantineStatus.rejected p = cc p

from_reprocessing :
    (s t : QuarantineStatus)
    → is_reprocessing s ≡ true
    → (is_pending t || is_terminal t) ≡ true
    → IsAllowed s t
unfolding allowed_transitions
from_reprocessing QuarantineStatus.reprocessing QuarantineStatus.pending p q = inr refl
from_reprocessing QuarantineStatus.reprocessing QuarantineStatus.resolved p q = inr refl
from_reprocessing QuarantineStatus.reprocessing QuarantineStatus.rejected p q = inr refl
from_reprocessing QuarantineStatus.reprocessing QuarantineStatus.reprocessing p q = inl refl
from_reprocessing QuarantineStatus.pending t p q = cc p
from_reprocessing QuarantineStatus.resolved t p q = cc p
from_reprocessing QuarantineStatus.rejected t p q = cc p

active-of_pending : (s : QuarantineStatus) → is_pending s ≡ true → is_active s ≡ true
active-of_pending s p = ground arith

active-of_reprocessing : (s : QuarantineStatus) → is_reprocessing s ≡ true → is_active s ≡ true
active-of_reprocessing QuarantineStatus.reprocessing p = refl
active-of_reprocessing QuarantineStatus.pending p = cc p
active-of_reprocessing QuarantineStatus.resolved p = cc p
active-of_reprocessing QuarantineStatus.rejected p = cc p

active-of_same :
    (s t : QuarantineStatus) → is_active s ≡ true → same_status s t ≡ true → is_active t ≡ true
active-of_same QuarantineStatus.pending t p q = active-of_pending t q
active-of_same QuarantineStatus.reprocessing t p q = active-of_reprocessing t q
active-of_same QuarantineStatus.resolved t p q = cc p
active-of_same QuarantineStatus.rejected t p q = cc p

pending_or_terminal :
    (t : QuarantineStatus) → is_terminal t ≡ true → (is_pending t || is_terminal t) ≡ true
pending_or_terminal QuarantineStatus.resolved p = refl
pending_or_terminal QuarantineStatus.rejected p = refl
pending_or_terminal QuarantineStatus.pending p = refl
pending_or_terminal QuarantineStatus.reprocessing p = cc p

active-of_escalatable :
    (operator_id action_id : String) (expected : QuarantineStatus) (now : ℕ)
    (seen d : IngestionQuarantineRecord)
    → may_escalate operator_id expected now seen ≡ true
    → is_escalatable operator_id action_id now seen d ≡ true
    → is_active d.status ≡ true
unfolding may_escalate is_escalatable
active-of_escalatable operator_id action_id expected now seen d m p =
    active-of_same seen.status d.status (&&-left (is_active seen.status) _ m)
      (&&-left (same_status seen.status d.status) _ p)

-- A step starts at a record that is not settled yet.
active-Step : (d e : IngestionQuarantineRecord) → Step d e → is_active d.status ≡ true
unfolding is_claimable is_reclaimable is_reservable is_owned
active-Step d _ (claiming operator_id lease action_id tick seen p) =
    active-of_pending d.status (&&-left _ _ p)
active-Step d _ (reclaiming now p) = active-of_reprocessing d.status (&&-left _ _ p)
active-Step d _ (reserving operator_id action_id a now p) =
    active-of_reprocessing d.status (&&-left _ _ p)
active-Step d _ (releasing operator_id ev tick seen p) =
    active-of_reprocessing d.status (&&-left _ _ p)
active-Step d _ (resolving days target operator_id a ev tick seen t p) =
    active-of_reprocessing d.status (&&-left _ _ p)
active-Step d _ (escalating operator_id action_id reason expected tick seen m p) =
    active-of_escalatable operator_id action_id expected tick.now seen d m p

IsAllowed-Step : (d e : IngestionQuarantineRecord) → Step d e → IsAllowed d.status e.status
unfolding is_claimable is_reclaimable is_reservable is_owned claimed reclaimed reserved released
    resolved escalated
IsAllowed-Step d _ (claiming operator_id lease action_id tick seen p) =
    from_pending d.status (&&-left _ _ p)
IsAllowed-Step d _ (reclaiming now p) = from_reprocessing d.status _ (&&-left _ _ p) refl
IsAllowed-Step d _ (reserving operator_id action_id a now p) = inl refl
IsAllowed-Step d _ (releasing operator_id ev tick seen p) =
    from_reprocessing d.status _ (&&-left _ _ p) refl
IsAllowed-Step d _ (resolving days target operator_id a ev tick seen t p) =
    from_reprocessing d.status target (&&-left _ _ p) (pending_or_terminal target t)
IsAllowed-Step d _ (escalating operator_id action_id reason expected tick seen m p) = inl refl

-- The later history is the earlier one and further events.
abbrev pub IsExtended : List QuarantineResolutionEvent → List QuarantineResolutionEvent → Type 0
IsExtended es fs = (xs : List QuarantineResolutionEvent) × (fs ≡ es ++ xs)

append-nil : (es : List QuarantineResolutionEvent) → es ≡ es ++ []
append-nil [] = refl
append-nil (e ∷ es) = ap (λ u. e ∷ u) (append-nil es)

append_assoc : (es xs ys : List QuarantineResolutionEvent) → (es ++ xs) ++ ys ≡ es ++ (xs ++ ys)
append_assoc [] xs ys = refl
append_assoc (e ∷ es) xs ys = ap (λ u. e ∷ u) (append_assoc es xs ys)

IsExtended-Step :
    (d e : IngestionQuarantineRecord)
    → Step d e
    → IsExtended d.resolution_history e.resolution_history
unfolding claimed reclaimed reserved released resolved escalated
IsExtended-Step d _ (claiming operator_id lease action_id tick seen p) = (_, refl)
IsExtended-Step d _ (reclaiming now p) = ([], append-nil d.resolution_history)
IsExtended-Step d _ (reserving operator_id action_id a now p) =
    ([], append-nil d.resolution_history)
IsExtended-Step d _ (releasing operator_id ev tick seen p) = (_, refl)
IsExtended-Step d _ (resolving days target operator_id a ev tick seen t p) = (_, refl)
IsExtended-Step d _ (escalating operator_id action_id reason expected tick seen m p) = (_, refl)

pub IsExtended-Steps :
    (d e : IngestionQuarantineRecord)
    → Steps d e
    → IsExtended d.resolution_history e.resolution_history
IsExtended-Steps d _ none_yet = ([], append-nil d.resolution_history)
IsExtended-Steps d _ (further e f s t) =
    let (xs, p) = IsExtended-Steps d e s in
    let (ys, q) = IsExtended-Step e f t in
    (xs ++ ys, q ∙ ap (λ u. u ++ ys) p ∙ append_assoc d.resolution_history xs ys)

active-not_terminal : (s : QuarantineStatus) → is_active s ≡ true → is_terminal s ≡ true → ⊥
active-not_terminal QuarantineStatus.pending p q = cc q
active-not_terminal QuarantineStatus.reprocessing p q = cc q
active-not_terminal QuarantineStatus.resolved p q = cc p
active-not_terminal QuarantineStatus.rejected p q = cc p

-- A step is made from a record that is PENDING or REPROCESSING only; it keeps its status or changes it as the
-- table of transitions allows; and it keeps the history, which it may extend.
pub Step-IsAllowed :
    (d e : IngestionQuarantineRecord)
    → Step d e
    → (is_active d.status ≡ true)
      × (IsAllowed d.status e.status × IsExtended d.resolution_history e.resolution_history)
Step-IsAllowed d e s = (active-Step d e s, (IsAllowed-Step d e s, IsExtended-Step d e s))

-- A record that is RESOLVED or REJECTED is settled: however many operations follow, it is as it was.
settled_is_final :
    (d e : IngestionQuarantineRecord) → is_terminal d.status ≡ true → Steps d e → e ≡ d
settled_is_final d _ t none_yet = refl
settled_is_final d _ t (further e f s step) = absurd (
    active-not_terminal e.status (active-Step e f step)
      (subst (λ u. is_terminal u.status ≡ true) (sym (settled_is_final d e t s)) t))
