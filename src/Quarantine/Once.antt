-- ===== src/Quarantine/Once.antt =====
-- Calls of src/infrastructure/ingestion/quarantine_repository.py for an action that is applied already.
use reconciliation_ingestion.Prelude.{
  ℕ, String, Bool, true, false, none, some, ◌≡◌, refl, sym, ap, subst, ltb, if◌then◌else◌,
}
use reconciliation_ingestion.Result.{Result, ok, err}
use reconciliation_ingestion.Quarantine.Types.{
  IngestionQuarantineRecord, QuarantineStatus, QuarantineAction, RetentionPolicy, days_for,
  assert_quarantine_transition, is_pending,
}
use reconciliation_ingestion.Quarantine.Collection.{Collection, IsDocumentStore}
use reconciliation_ingestion.Quarantine.Updates.{
  Tick, Evidence, bounded_action_id, is_claimable, claimed, is_reservable, reserved, is_owned,
  released, resolved,
}
use reconciliation_ingestion.Quarantine.Escalation.{may_escalate, is_escalatable, escalated}
use reconciliation_ingestion.Quarantine.Repository.{
  holds_claim, claim, claim_as, reserve_action, reserve_as, release_for_retry, release_as, resolve,
  resolve_as, resolve_until, escalate, escalate_as, reread,
}
use reconciliation_ingestion.Quarantine.Operations.{
  Operation, claim_it, reclaim_it, reserve_it, release_it, resolve_it, escalate_it, undisturbed,
  perform,
}
use reconciliation_ingestion.Quarantine.Course.{Steps}
use reconciliation_ingestion.Quarantine.Actions.{
  action_of, is_applied, applied-kept, not_claimable, not_reservable, not_owned, not_escalatable,
}

no_identifier : (a : String) → ¬ (bounded_action_id none ≡ ok (some a))
unfolding bounded_action_id
no_identifier a q = cc q

module _ (c : Collection) (s : IsDocumentStore c) where
  open c use {Db, find_one, update_one, find_one_and_update}

  if-same :
      {A : Type 0} (b : Bool) (x y : A × Db) (db : Db)
      → x.1 ≡ db
      → y.1 ≡ db
      → (if b then x else y).1 ≡ db
  if-same true x y db p q = p
  if-same false x y db p q = q

  module _ (k a : String) (db : Db) (d : IngestionQuarantineRecord) (p : find_one k db ≡ some d)
      (h : is_applied a d ≡ true) where
    claim-applied :
        (operator_id : String) (lease : ℕ) (tick : Tick)
        → (claim_as c k operator_id lease tick (undisturbed c) (ok (some a)) db).1 ≡ db
    claim-applied operator_id lease tick = rw p (
        if-same (is_pending d.status) _ _ db
          (ap (λ u. u.1)
            (s.claim_miss k (is_claimable (some a)) (claimed operator_id lease (some a) tick d) db d
              p (not_claimable a d h)))
          refl)

    reserve-applied :
        (operator_id : String) (act : QuarantineAction) (tick : Tick)
        → (reserve_as c k operator_id act tick (undisturbed c) (ok (some a)) db).1 ≡ db
    reserve-applied operator_id act tick =
        rw
          (s.claim_miss k (is_reservable operator_id a) (reserved operator_id a act tick.now) db d p
            (not_reservable a d h operator_id))
          refl

    release-applied :
        (operator_id : String) (ev : Evidence) (tick : Tick)
        → (release_as c k operator_id ev tick (undisturbed c) (ok (some a)) db).1 ≡ db
    release-applied operator_id ev tick = rw p (
        if-same (holds_claim operator_id tick.now d) _ _ db
          (ap (λ u. u.1)
            (s.update_miss k (is_owned operator_id (some a) tick.now d)
              (released operator_id (record ev { action_id = some a }) tick d) db d p
              (not_owned a d h operator_id tick.now d)))
          refl)

    escalate-applied :
        (operator_id : String) (expected : QuarantineStatus) (reason : String) (tick : Tick)
        → (escalate_as c k operator_id expected reason tick (undisturbed c) (ok (some a)) db).1 ≡ db
    escalate-applied operator_id expected reason tick = rw p (
        if-same (may_escalate operator_id expected tick.now d) _ _ db
          (ap (λ u. (reread c k u).1)
            (s.update_miss k (is_escalatable operator_id a tick.now d)
              (escalated operator_id a reason tick d) db d p
              (not_escalatable a d h operator_id tick.now d)))
          refl)

    resolve_until-applied :
        (days : Result ℕ) (target : QuarantineStatus) (operator_id : String)
        (act : QuarantineAction) (ev : Evidence) (tick : Tick)
        → (resolve_until c k target operator_id act
            (record ev { action_id = some a })
            tick
            (undisturbed c)
            d
            days
            db).1
          ≡ db
    resolve_until-applied (err e) target operator_id act ev tick = refl
    resolve_until-applied (ok days) target operator_id act ev tick =
        ap (λ u. u.1)
          (s.update_miss k (is_owned operator_id (some a) tick.now d)
            (resolved days target operator_id act (record ev { action_id = some a }) tick d) db d p
            (not_owned a d h operator_id tick.now d))

    resolve-applied :
        (pol : RetentionPolicy) (target : QuarantineStatus) (operator_id : String)
        (act : QuarantineAction) (ev : Evidence) (tick : Tick) (t : Result (Unit {0}))
        → (resolve_as c pol k target operator_id act ev tick (undisturbed c) t (ok (some a)) db).1
          ≡ db
    resolve-applied pol target operator_id act ev tick (err e) = refl
    resolve-applied pol target operator_id act ev tick (ok _) = rw p (
        if-same (holds_claim operator_id tick.now d) _ _ db
          (resolve_until-applied (days_for pol target) target operator_id act ev tick) refl)

    applied-perform :
        (o : Operation) → bounded_action_id (action_of o) ≡ ok (some a) → perform c k o db ≡ db
    unfolding perform claim reserve_action release_for_retry resolve escalate
    applied-perform (claim_it operator_id lease action_id tick) q =
        if-same (ltb lease 1) _ _ db refl (
          subst (λ r. (claim_as c k operator_id lease tick (undisturbed c) r db).1 ≡ db) (sym q)
            (claim-applied operator_id lease tick))
    applied-perform (reclaim_it now) q = absurd (no_identifier a q)
    applied-perform (reserve_it operator_id action_id act tick) q =
        subst (λ r. (reserve_as c k operator_id act tick (undisturbed c) r db).1 ≡ db) (sym q)
          (reserve-applied operator_id act tick)
    applied-perform (release_it operator_id ev tick) q =
        subst (λ r. (release_as c k operator_id ev tick (undisturbed c) r db).1 ≡ db) (sym q)
          (release-applied operator_id ev tick)
    applied-perform (resolve_it pol target operator_id act ev tick) q =
        subst
          (λ r.
            (resolve_as c pol k target operator_id act ev tick (undisturbed c)
              (assert_quarantine_transition QuarantineStatus.reprocessing target) r db).1
            ≡ db)
          (sym q)
          (resolve-applied pol target operator_id act ev tick
            (assert_quarantine_transition QuarantineStatus.reprocessing target))
    applied-perform (escalate_it operator_id action_id expected reason tick) q =
        subst (λ r. (escalate_as c k operator_id expected reason tick (undisturbed c) r db).1 ≡ db)
          (sym q) (escalate-applied operator_id expected reason tick)

  -- An action is applied once: when the history of a record has it, then however many operations follow, no
  -- call with its identifier, by whatever operator and with whatever spaces around it, changes anything, on a
  -- database that nobody else writes to meanwhile.
  pub action_is_applied_once :
      (k a : String) (d e : IngestionQuarantineRecord) (o : Operation) (db : Db)
      → is_applied a d ≡ true
      → Steps d e
      → find_one k db ≡ some e
      → bounded_action_id (action_of o) ≡ ok (some a)
      → perform c k o db ≡ db
  action_is_applied_once k a d e o db h st p q =
      applied-perform k a db e p (applied-kept a d e h st) o q
