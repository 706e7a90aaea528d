-- ===== src/Resolution/Stored.antt =====
-- `QuarantineResolutionService` of src/application/ingestion/quarantine_service.py on the repository of
-- src/infrastructure/ingestion/quarantine_repository.py: a rejection, from its request to the stored record, and the
-- same request once more.
use text.Mathlib.TextPositions.{eq_refl}
use reconciliation_ingestion.Prelude.{
  ◌+◌, ◌*◌, String, true, false, none, some, str_eq, ◌≡◌, refl, sym, ap, ◌∙◌, subst,
}
use reconciliation_ingestion.Result.{Result, ok}
use reconciliation_ingestion.Quarantine.Values.{no_entries}
use reconciliation_ingestion.Quarantine.Types.{
  IngestionQuarantineRecord, QuarantineStatus, QuarantineAction, RetentionPolicy, is_reprocessing,
}
use reconciliation_ingestion.Quarantine.Collection.{Collection, IsDocumentStore}
use reconciliation_ingestion.Quarantine.Updates.{
  Tick, Evidence, bounded_action_id, is_owned, resolved, reserved, is_reservable, end_event,
}
use reconciliation_ingestion.Quarantine.Repository as Repo
use reconciliation_ingestion.Quarantine.Repository.{is_reserved, holds_claim}
use reconciliation_ingestion.Quarantine.Queries.{find_action}
use reconciliation_ingestion.Quarantine.Operations.{undisturbed}
use reconciliation_ingestion.Quarantine.Actions.{is_applied}
use reconciliation_ingestion.Quarantine.History.{&&-left, &&-right, &&-intro, not-false}
use reconciliation_ingestion.Quarantine.Settling.{resolve-rejected}
use reconciliation_ingestion.Resolution.Answers.{ResolutionResult}
use reconciliation_ingestion.Resolution.Results.{
  replay_of, action_mismatch, result_from_event, event_success, event_outcome,
}
use reconciliation_ingestion.Resolution.Ports.{
  ReprocessMode, ReprocessRequest, Ports, AuditEntry, action_for,
}
use reconciliation_ingestion.Resolution.Service.{settled_result, terminal_resolve, emit_audit}
use reconciliation_ingestion.Resolution.Replay.{stripped_reason}
use reconciliation_ingestion.Resolution.Resolving.{resolve_claimed, rejection}
use reconciliation_ingestion.Resolution.Rejecting.{
  not_refused, rejection_runs, first_event-append, first_event-none, then_returns, on_repository,
  HasRejected,
}

module _ {C : Type 0} (c : Collection) (store : IsDocumentStore c) (pol : RetentionPolicy)
    (tick : Tick) (others : Ports c.Db C)
    (silent : (e : AuditEntry) (db : c.Db) → others.audit e db ≡ (ok tt, db)) (r : ReprocessRequest)
    (a : String) (db : c.Db) (d : IngestionQuarantineRecord)
    (p : c.find_one r.record_id db ≡ some d) (h : holds_claim r.operator_id tick.now d ≡ true)
    (b : bounded_action_id (some r.action_id) ≡ ok (some a)) (fresh : is_applied a d ≡ false)
    (free : d.active_action ≡ none) (m : r.mode ≡ ReprocessMode.reject) where
  open c use {Db, find_one, update_one}

  abbrev service : Ports Db C
  service = on_repository c pol tick others

  abbrev kept : IngestionQuarantineRecord
  kept = reserved r.operator_id a (action_for r.mode) tick.now d

  abbrev reserved_db : Db
  reserved_db =
      (update_one r.record_id (is_reservable r.operator_id a)
        (reserved r.operator_id a (action_for r.mode) tick.now) db).1

  reservable : is_reservable r.operator_id a d ≡ true
  unfolding is_reservable holds_claim
  reservable = &&-intro _ _ (&&-left _ _ h) (
      &&-intro _ _ (&&-left _ _ (&&-right (is_reprocessing d.status) _ h))
        (&&-intro _ _ (not-false _ fresh) (rw free refl)))

  finds_nothing : find_action c r.record_id r.action_id db ≡ ok none
  unfolding find_action
  finds_nothing = rw (b, p) (ap (λ o. ok o) (first_event-none c a d.resolution_history fresh))

  reserves :
      Repo.reserve_action c r.record_id r.operator_id r.action_id
        (action_for r.mode)
        tick
        (undisturbed c)
        db
      ≡ (ok is_reserved, reserved_db)
  unfolding Repo.reserve_action
  reserves =
      rw
        (
          b,
          store.claim_hit r.record_id (is_reservable r.operator_id a)
              (reserved r.operator_id a (action_for r.mode) tick.now) db d p reservable,
        )
        refl

  reserved_is_stored : find_one r.record_id reserved_db ≡ some kept
  reserved_is_stored =
      store.update_hit r.record_id (is_reservable r.operator_id a)
        (reserved r.operator_id a (action_for r.mode) tick.now) db d (λ _. unfold reserved in refl)
        p reservable

  abbrev evidence : Evidence
  evidence = record {
    reason = stripped_reason r.reason;
    metadata = no_entries;
    action_id = some a;
    outcome = some "REJECTED";
  }

  abbrev last : IngestionQuarantineRecord → IngestionQuarantineRecord
  last =
      resolved pol.rejected_days QuarantineStatus.rejected r.operator_id QuarantineAction.reject
        evidence tick kept

  abbrev settled_db : Db
  settled_db =
      (update_one r.record_id (is_owned r.operator_id (some a) tick.now kept) last reserved_db).1

  settles :
      (Repo.resolve c pol r.record_id QuarantineStatus.rejected r.operator_id
          QuarantineAction.reject
          (record evidence { action_id = some r.action_id })
          tick
          (undisturbed c)
          reserved_db
        ≡ (ok true, settled_db))
      × (find_one r.record_id settled_db ≡ some (last kept))
  settles =
      resolve-rejected c store r.record_id r.operator_id QuarantineAction.reject
        (record evidence { action_id = some r.action_id }) tick pol (some a) reserved_db kept
        reserved_is_stored (unfold reserved holds_claim in h) b
        (unfold reserved in not-false _ fresh)

  finds_event :
      find_action c r.record_id r.action_id settled_db
      ≡ ok (
          some (
            end_event r.operator_id QuarantineStatus.rejected QuarantineAction.reject evidence tick
              kept))
  unfolding find_action resolved reserved
  finds_event =
      rw (b, settles.1)
        (ap (λ o. ok o)
          (first_event-append c a d.resolution_history
            (end_event r.operator_id QuarantineStatus.rejected QuarantineAction.reject evidence tick
              kept)
            fresh (unfold end_event in eq_refl a)))

  settlement_runs :
      terminal_resolve service d r (rejection service r) reserved_db
      ≡ (ok (settled_result service d r (rejection service r) true), settled_db)
  unfolding terminal_resolve rejection emit_audit
  settlement_runs =
      then_returns _ _ reserved_db settled_db true settles.0
      ∙ then_returns _ _ settled_db settled_db tt (silent _ settled_db)

  module _ (expected : r.expected_status ≡ QuarantineStatus.reprocessing)
      (given : str_eq (stripped_reason r.reason) "" ≡ false) where
    first_run :
        resolve_claimed service r db
        ≡ (ok (settled_result service d r (rejection service r) true), settled_db)
    first_run =
        rejection_runs service r d db reserved_db settled_db m (ap (λ o. (o, db)) finds_nothing)
          (ap (λ o. (ok o, db)) p) (not_refused service r tick.now d expected h given) reserves
          settlement_runs

    second_run : resolve_claimed service r settled_db ≡ (
      ok (
          replay_of r.record_id r.action_id r.operator_id (action_for r.mode) none (
            end_event r.operator_id QuarantineStatus.rejected QuarantineAction.reject evidence tick
              kept)),
      settled_db,
    )
    unfolding resolve_claimed
    second_run = then_returns _ _ settled_db settled_db _ (ap (λ o. (o, settled_db)) finds_event)

    replay_is_done : HasRejected (
        ok (
          replay_of r.record_id r.action_id r.operator_id (action_for r.mode) none (
            end_event r.operator_id QuarantineStatus.rejected QuarantineAction.reject evidence tick
              kept)))
    unfolding replay_of action_mismatch result_from_event event_success event_outcome end_event
        action_for
    replay_is_done = rw (m, eq_refl r.operator_id) (refl, (refl, refl))

    -- A rejection is done once: where the stored record is REPROCESSING and claimed by the operator, whose
    -- claim has not run out, no action is reserved, the request's action is new and its reason is not blank, on
    -- a repository that nobody else writes to and with an audit that raises nothing and does not touch it,
    -- `resolve_claimed` succeeds, the record is stored as REJECTED with the end of its retention, and the same
    -- request once more gets the same success, status and outcome, and leaves the repository as it is.
    pub rejection_is_done_once :
        let first = resolve_claimed service r db in
        let again = resolve_claimed service r first.1 in
        HasRejected first.0
        × (((e : IngestionQuarantineRecord) × ((find_one r.record_id first.1 ≡ some e)
                × ((e.status ≡ QuarantineStatus.rejected)
                    × (e.retention_until ≡ some (tick.now + pol.rejected_days * 86400)))))
            × (HasRejected again.0 × (again.1 ≡ first.1)))
    rejection_is_done_once = subst Outcome (sym first_run) (
      unfold settled_result rejection in (refl, (refl, refl)),
      (
        (last kept, (settles.1, (unfold resolved in refl, unfold resolved in refl))),
        subst (λ x. HasRejected x.0 × (x.1 ≡ settled_db)) (sym second_run) (replay_is_done, refl),
      ),
    )
      where
        Outcome : Result ResolutionResult × Db → Type 0
        Outcome x =
            HasRejected x.0
            × (((e : IngestionQuarantineRecord) × ((find_one r.record_id x.1 ≡ some e)
                    × ((e.status ≡ QuarantineStatus.rejected)
                        × (e.retention_until ≡ some (tick.now + pol.rejected_days * 86400)))))
                × (HasRejected (resolve_claimed service r x.1).0
                    × ((resolve_claimed service r x.1).1 ≡ x.1)))
