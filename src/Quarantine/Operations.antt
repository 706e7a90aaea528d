-- ===== src/Quarantine/Operations.antt =====
-- The operations of src/infrastructure/ingestion/quarantine_repository.py against the steps of a record.
use reconciliation_ingestion.Prelude.{
  ℕ, String, Bool, true, false, Option, none, some, ◌≡◌, refl, sym, ap, ◌∙◌, ◌⊎◌, inl, inr, subst,
  Bool-cases, ltb, if◌then◌else◌,
}
use reconciliation_ingestion.Result.{Result, ok, err}
use reconciliation_ingestion.Quarantine.Types.{
  IngestionQuarantineRecord, QuarantineStatus, QuarantineAction, RetentionPolicy, days_for,
  assert_quarantine_transition, is_pending,
}
use reconciliation_ingestion.Quarantine.Collection.{Collection, IsDocumentStore, KeepsId}
use reconciliation_ingestion.Quarantine.Updates.{
  Tick, Evidence, bounded_action_id, is_claimable, claimed, is_reclaimable, reclaimed,
  is_reservable, reserved, is_owned, released, resolved,
}
use reconciliation_ingestion.Quarantine.Escalation.{may_escalate, is_escalatable, escalated}
use reconciliation_ingestion.Quarantine.Repository.{
  holds_claim, claim, claim_as, reclaim_expired_claim, reserve_action, reserve_as, reservation_of,
  release_for_retry, release_as, resolve, resolve_as, resolve_until, escalate, escalate_as, reread,
}
use reconciliation_ingestion.Quarantine.Lifecycle.{
  Step, claiming, reclaiming, reserving, releasing, resolving, escalating,
}

-- A call of the repository on one record.
pub data Operation : Type 0 where
  claim_it : String → ℕ → Option String → Tick → Operation
  reclaim_it : ℕ → Operation
  reserve_it : String → String → QuarantineAction → Tick → Operation
  release_it : String → Evidence → Tick → Operation
  resolve_it :
      RetentionPolicy → QuarantineStatus → String → QuarantineAction → Evidence → Tick → Operation
  escalate_it : String → String → QuarantineStatus → String → Tick → Operation

module _ (c : Collection) where
  open c use {Db, find_one, update_one, find_one_and_update}

  -- Nobody else writes.
  abbrev pub undisturbed : Db → Db
  undisturbed db = db

  -- The database after a call on the record.
  unfoldable pub perform : String → Operation → Db → Db
  perform k (claim_it operator_id lease action_id tick) db =
      (claim c k operator_id lease action_id tick undisturbed db).1
  perform k (reclaim_it now) db = (reclaim_expired_claim c k now db).1
  perform k (reserve_it operator_id action_id a tick) db =
      (reserve_action c k operator_id action_id a tick undisturbed db).1
  perform k (release_it operator_id ev tick) db =
      (release_for_retry c k operator_id ev tick undisturbed db).1
  perform k (resolve_it p target operator_id a ev tick) db =
      (resolve c p k target operator_id a ev tick undisturbed db).1
  perform k (escalate_it operator_id action_id expected reason tick) db =
      (escalate c k operator_id action_id expected reason tick undisturbed db).1

  -- The stored record is as it was, or one step further.
  pub IsMoved : String → IngestionQuarantineRecord → Db → Type 0
  IsMoved k d db =
      (e : IngestionQuarantineRecord) × ((find_one k db ≡ some e) × ((e ≡ d) ⊎ Step d e))

  module _ (s : IsDocumentStore c) where
    IsMoved-same :
        (k : String) (d : IngestionQuarantineRecord) (db : Db)
        → find_one k db ≡ some d
        → IsMoved k d db
    unfolding IsMoved
    IsMoved-same k d db p = (d, (p, inl refl))

    IsMoved-update :
        (k : String) (q : IngestionQuarantineRecord → Bool)
        (f : IngestionQuarantineRecord → IngestionQuarantineRecord) (db : Db)
        (d : IngestionQuarantineRecord)
        → KeepsId f
        → find_one k db ≡ some d
        → (q d ≡ true → Step d (f d))
        → IsMoved k d (update_one k q f db).1
    unfolding IsMoved
    IsMoved-update k q f db d keeps p step = elim (Bool-cases (q d)) [
      | inl e ↦ (f d, (s.update_hit k q f db d keeps p e, inr (step e)))
      | inr e ↦ (d, (ap (λ u. find_one k u.1) (s.update_miss k q f db d p e) ∙ p, inl refl))
    ]

    IsMoved-find_and_update :
        (k : String) (q : IngestionQuarantineRecord → Bool)
        (f : IngestionQuarantineRecord → IngestionQuarantineRecord) (db : Db)
        (d : IngestionQuarantineRecord)
        → KeepsId f
        → find_one k db ≡ some d
        → (q d ≡ true → Step d (f d))
        → IsMoved k d (find_one_and_update k q f db).1
    IsMoved-find_and_update k q f db d keeps p step = elim (Bool-cases (q d)) [
      | inl e ↦
          subst (IsMoved k d) (sym (ap (λ u. u.1) (s.claim_hit k q f db d p e)))
            (IsMoved-update k q f db d keeps p step)
      | inr e ↦
          subst (IsMoved k d) (sym (ap (λ u. u.1) (s.claim_miss k q f db d p e)))
            (IsMoved-same k d db p)
    ]

    IsMoved-claim :
        (k operator_id : String) (lease : ℕ) (tick : Tick) (r : Result (Option String)) (db : Db)
        (d : IngestionQuarantineRecord)
        → find_one k db ≡ some d
        → IsMoved k d (claim_as c k operator_id lease tick undisturbed r db).1
    IsMoved-claim k operator_id lease tick (err e) db d p = IsMoved-same k d db p
    IsMoved-claim k operator_id lease tick (ok action_id) db d p =
        rw p (elim (Bool-cases (is_pending d.status)) [
          | inl e ↦ rw e (
              IsMoved-find_and_update k (is_claimable action_id)
                (claimed operator_id lease action_id tick d) db d (λ _. unfold claimed in refl) p
                (claiming operator_id lease action_id tick d))
          | inr e ↦ rw e (IsMoved-same k d db p)
        ])

    IsMoved-if :
        (k : String) (d : IngestionQuarantineRecord) (b : Bool)
        (x y : Result (Option IngestionQuarantineRecord) × Db)
        → IsMoved k d x.1
        → IsMoved k d y.1
        → IsMoved k d (if b then x else y).1
    IsMoved-if k d true x y m n = m
    IsMoved-if k d false x y m n = n

    IsMoved-reservation :
        (k action_id : String) (d : IngestionQuarantineRecord)
        (x : Option IngestionQuarantineRecord × Db)
        → IsMoved k d x.1
        → IsMoved k d (reservation_of c k action_id undisturbed x).1
    IsMoved-reservation k action_id d (none, db) m = m
    IsMoved-reservation k action_id d (some e, db) m = m

    IsMoved-reserve :
        (k operator_id : String) (a : QuarantineAction) (tick : Tick) (r : Result (Option String))
        (db : Db) (d : IngestionQuarantineRecord)
        → find_one k db ≡ some d
        → IsMoved k d (reserve_as c k operator_id a tick undisturbed r db).1
    IsMoved-reserve k operator_id a tick (err e) db d p = IsMoved-same k d db p
    IsMoved-reserve k operator_id a tick (ok none) db d p = IsMoved-same k d db p
    IsMoved-reserve k operator_id a tick (ok (some action_id)) db d p =
        IsMoved-reservation k action_id d _ (
          IsMoved-find_and_update k (is_reservable operator_id action_id)
            (reserved operator_id action_id a tick.now) db d (λ _. unfold reserved in refl) p
            (reserving operator_id action_id a tick.now))

    IsMoved-release :
        (k operator_id : String) (ev : Evidence) (tick : Tick) (r : Result (Option String))
        (db : Db) (d : IngestionQuarantineRecord)
        → find_one k db ≡ some d
        → IsMoved k d (release_as c k operator_id ev tick undisturbed r db).1
    IsMoved-release k operator_id ev tick (err e) db d p = IsMoved-same k d db p
    IsMoved-release k operator_id ev tick (ok action_id) db d p =
        rw p (elim (Bool-cases (holds_claim operator_id tick.now d)) [
          | inl e ↦ rw e (
              let ev' = record ev { action_id = action_id } in
              IsMoved-update k (is_owned operator_id action_id tick.now d)
                (released operator_id ev' tick d) db d (λ _. unfold released in refl) p
                (releasing operator_id ev' tick d))
          | inr e ↦ rw e (IsMoved-same k d db p)
        ])

    IsMoved-resolve_until :
        (pol : RetentionPolicy) (k : String) (target : QuarantineStatus) (operator_id : String)
        (a : QuarantineAction) (ev : Evidence) (tick : Tick) (db : Db)
        (d : IngestionQuarantineRecord)
        → find_one k db ≡ some d
        → IsMoved k d
            (resolve_until c k target operator_id a ev tick undisturbed d
              (days_for pol target)
              db).1
    unfolding days_for
    IsMoved-resolve_until pol k QuarantineStatus.pending operator_id a ev tick db d p =
        IsMoved-same k d db p
    IsMoved-resolve_until pol k QuarantineStatus.reprocessing operator_id a ev tick db d p =
        IsMoved-same k d db p
    IsMoved-resolve_until pol k QuarantineStatus.resolved operator_id a ev tick db d p =
        IsMoved-update k (is_owned operator_id ev.action_id tick.now d)
          (resolved pol.resolved_days QuarantineStatus.resolved operator_id a ev tick d) db d
          (λ _. unfold resolved in refl) p
          (resolving pol.resolved_days QuarantineStatus.resolved operator_id a ev tick d refl)
    IsMoved-resolve_until pol k QuarantineStatus.rejected operator_id a ev tick db d p =
        IsMoved-update k (is_owned operator_id ev.action_id tick.now d)
          (resolved pol.rejected_days QuarantineStatus.rejected operator_id a ev tick d) db d
          (λ _. unfold resolved in refl) p
          (resolving pol.rejected_days QuarantineStatus.rejected operator_id a ev tick d refl)

    IsMoved-resolve :
        (pol : RetentionPolicy) (k : String) (target : QuarantineStatus) (operator_id : String)
        (a : QuarantineAction) (ev : Evidence) (tick : Tick) (t : Result (Unit {0}))
        (r : Result (Option String)) (db : Db) (d : IngestionQuarantineRecord)
        → find_one k db ≡ some d
        → IsMoved k d (resolve_as c pol k target operator_id a ev tick undisturbed t r db).1
    IsMoved-resolve pol k target operator_id a ev tick (err e) r db d p = IsMoved-same k d db p
    IsMoved-resolve pol k target operator_id a ev tick (ok _) (err e) db d p = IsMoved-same k d db p
    IsMoved-resolve pol k target operator_id a ev tick (ok _) (ok action_id) db d p =
        rw p (elim (Bool-cases (holds_claim operator_id tick.now d)) [
          | inl e ↦ rw e (
              IsMoved-resolve_until pol k target operator_id a (record ev { action_id = action_id })
                tick db d p)
          | inr e ↦ rw e (IsMoved-same k d db p)
        ])

    IsMoved-reread :
        (k : String) (d : IngestionQuarantineRecord) (x : Bool × Db)
        → IsMoved k d x.1
        → IsMoved k d (reread c k x).1
    IsMoved-reread k d (true, db) m = m
    IsMoved-reread k d (false, db) m = m

    IsMoved-escalate :
        (k operator_id : String) (expected : QuarantineStatus) (reason : String) (tick : Tick)
        (r : Result (Option String)) (db : Db) (d : IngestionQuarantineRecord)
        → find_one k db ≡ some d
        → IsMoved k d (escalate_as c k operator_id expected reason tick undisturbed r db).1
    IsMoved-escalate k operator_id expected reason tick (err e) db d p = IsMoved-same k d db p
    IsMoved-escalate k operator_id expected reason tick (ok none) db d p = IsMoved-same k d db p
    IsMoved-escalate k operator_id expected reason tick (ok (some action_id)) db d p =
        rw p (elim (Bool-cases (may_escalate operator_id expected tick.now d)) [
          | inl e ↦ rw e (
              IsMoved-reread k d _ (
                IsMoved-update k (is_escalatable operator_id action_id tick.now d)
                  (escalated operator_id action_id reason tick d) db d
                  (λ _. unfold escalated in refl) p
                  (escalating operator_id action_id reason expected tick d e)))
          | inr e ↦ rw e (IsMoved-same k d db p)
        ])

    -- Every operation on a stored record, on a database that nobody else writes to meanwhile, leaves the
    -- record as it was or makes one step of its lifecycle.
    pub repository_makes_steps :
        (k : String) (o : Operation) (db : Db) (d : IngestionQuarantineRecord)
        → find_one k db ≡ some d
        → IsMoved k d (perform k o db)
    unfolding perform claim reclaim_expired_claim reserve_action release_for_retry resolve escalate
    repository_makes_steps k (claim_it operator_id lease action_id tick) db d p =
        IsMoved-if k d (ltb lease 1) _ _ (IsMoved-same k d db p)
          (IsMoved-claim k operator_id lease tick (bounded_action_id action_id) db d p)
    repository_makes_steps k (reclaim_it now) db d p =
        IsMoved-find_and_update k (is_reclaimable now) (reclaimed now) db d
          (λ _. unfold reclaimed in refl) p (reclaiming now)
    repository_makes_steps k (reserve_it operator_id action_id a tick) db d p =
        IsMoved-reserve k operator_id a tick (bounded_action_id (some action_id)) db d p
    repository_makes_steps k (release_it operator_id ev tick) db d p =
        IsMoved-release k operator_id ev tick (bounded_action_id ev.action_id) db d p
    repository_makes_steps k (resolve_it pol target operator_id a ev tick) db d p =
        IsMoved-resolve pol k target operator_id a ev tick
          (assert_quarantine_transition QuarantineStatus.reprocessing target)
          (bounded_action_id ev.action_id) db d p
    repository_makes_steps k (escalate_it operator_id action_id expected reason tick) db d p =
        IsMoved-escalate k operator_id expected reason tick (bounded_action_id (some action_id)) db
          d p
