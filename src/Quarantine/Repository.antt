-- ===== src/Quarantine/Repository.antt =====
-- The operations of src/infrastructure/ingestion/quarantine_repository.py that change a record. An operation reads
-- the record and then updates it; `others` is what other workers write in between. A stored document has
-- passed the validators of its model, which then change nothing when it is read.
use reconciliation_ingestion.Prelude.{
  ℕ, ◌+◌, ◌*◌, min, String, Bool, true, false, ◌&&◌, not, Option, none, some, List, [], ◌∷◌, map,
  any, same_key, length, ltb, if◌then◌else◌,
}
use reconciliation_ingestion.Result.{Result, ok, err, value_error}
use reconciliation_ingestion.Quarantine.Types.{
  IngestionQuarantineRecord, QuarantineStatus, QuarantineAction, RetentionPolicy, days_for,
  assert_quarantine_transition, is_pending, is_reprocessing,
}
use reconciliation_ingestion.Quarantine.Collection.{Collection}
use reconciliation_ingestion.Quarantine.Updates.{
  Tick, Evidence, bounded_action_id, has_action, claim_expired, is_claimable, claimed,
  is_reclaimable, reclaimed, is_reservable, reserved, is_owned, released, resolved,
}
use reconciliation_ingestion.Quarantine.Escalation.{may_escalate, is_escalatable, escalated}

pub data Reservation : Type 0 where
  is_reserved not_found completed in_progress conflict : Reservation

-- The early return of `release_for_retry` and `resolve`, on the document it has read.
unfoldable pub holds_claim : String → ℕ → IngestionQuarantineRecord → Bool
unfolding claim_expired
holds_claim operator_id now seen =
    is_reprocessing seen.status
    && (same_key seen.claimed_by (some operator_id)
        && not (claim_expired seen.claim_expires_at now))

-- The document that `create_many` writes, given the end of its retention.
unfoldable with_expiry : ℕ → IngestionQuarantineRecord → IngestionQuarantineRecord
with_expiry limit r = record r { expires_at = some (earliest r.expires_at) }
  where
    earliest : Option ℕ → ℕ
    earliest none = limit
    earliest (some e) = min e limit

module _ (c : Collection) where
  open c use {Db, find_one, update_one, find_one_and_update, insert_many, update_many}

  -- `create_many`, given the setting `ingestion_quarantine_retention_days`.
  unfoldable pub create_many : ℕ → ℕ → List IngestionQuarantineRecord → Db → ℕ × Db
  unfolding with_expiry
  create_many retention_days now [] db = (0, db)
  create_many retention_days now (r ∷ rs) db =
      (length (r ∷ rs), insert_many (map (with_expiry (now + retention_days * 86400)) (r ∷ rs)) db)

  abbrev pub claim_seen :
      String
      → String
      → ℕ
      → Tick
      → (Db → Db)
      → Option String
      → Option IngestionQuarantineRecord
      → Db
      → Result (Option IngestionQuarantineRecord) × Db
  claim_seen record_id operator_id lease tick others action_id none db = (ok none, db)
  claim_seen record_id operator_id lease tick others action_id (some seen) db =
      if is_pending seen.status
      then (let (raw, db') =
            find_one_and_update record_id (is_claimable action_id)
              (claimed operator_id lease action_id tick seen) (others db) in
          (ok raw, db'))
      else (ok none, db)

  abbrev pub claim_as :
      String
      → String
      → ℕ
      → Tick
      → (Db → Db)
      → Result (Option String)
      → Db
      → Result (Option IngestionQuarantineRecord) × Db
  claim_as record_id operator_id lease tick others (err e) db = (err e, db)
  claim_as record_id operator_id lease tick others (ok action_id) db =
      claim_seen record_id operator_id lease tick others action_id (find_one record_id db) db

  -- `claim`
  unfoldable pub claim :
      String
      → String
      → ℕ
      → Option String
      → Tick
      → (Db → Db)
      → Db
      → Result (Option IngestionQuarantineRecord) × Db
  claim record_id operator_id lease action_id tick others db =
      if ltb lease 1
      then (err (value_error "lease_seconds must be at least 1"), db)
      else claim_as record_id operator_id lease tick others (bounded_action_id action_id) db

  -- `reclaim_expired_claim`
  unfoldable pub reclaim_expired_claim : String → ℕ → Db → Option IngestionQuarantineRecord × Db
  reclaim_expired_claim record_id now =
      find_one_and_update record_id (is_reclaimable now) (reclaimed now)

  -- The answer of `reserve_action` where nothing was reserved.
  abbrev pub refused_reservation : String → Option IngestionQuarantineRecord → Reservation
  refused_reservation action_id none = not_found
  refused_reservation action_id (some d) =
      if any (has_action action_id) d.resolution_history
      then completed
      else elim d.active_action [ none ↦ conflict | some _ ↦ in_progress ]

  abbrev pub reservation_of :
      String → String → (Db → Db) → Option IngestionQuarantineRecord × Db → Reservation × Db
  reservation_of record_id action_id others (some d, db) = (is_reserved, db)
  reservation_of record_id action_id others (none, db) =
      (refused_reservation action_id (find_one record_id (others db)), others db)

  abbrev pub reserve_as :
      String
      → String
      → QuarantineAction
      → Tick
      → (Db → Db)
      → Result (Option String)
      → Db
      → Result Reservation × Db
  reserve_as record_id operator_id a tick others (err e) db = (err e, db)
  reserve_as record_id operator_id a tick others (ok none) db =
      (err (value_error "action_id is required"), db)
  reserve_as record_id operator_id a tick others (ok (some action_id)) db =
      let (answer, db') = reservation_of record_id action_id others (
        find_one_and_update record_id (is_reservable operator_id action_id)
          (reserved operator_id action_id a tick.now) db) in
      (ok answer, db')

  -- `reserve_action`
  unfoldable pub reserve_action :
      String → String → String → QuarantineAction → Tick → (Db → Db) → Db → Result Reservation × Db
  reserve_action record_id operator_id action_id a tick others =
      reserve_as record_id operator_id a tick others (bounded_action_id (some action_id))

  abbrev release_seen :
      String
      → String
      → Evidence
      → Tick
      → (Db → Db)
      → Option IngestionQuarantineRecord
      → Db
      → Bool × Db
  release_seen record_id operator_id ev tick others none db = (false, db)
  release_seen record_id operator_id ev tick others (some seen) db =
      if holds_claim operator_id tick.now seen
      then update_one record_id (is_owned operator_id ev.action_id tick.now seen)
          (released operator_id ev tick seen) (others db)
      else (false, db)

  abbrev pub release_as :
      String → String → Evidence → Tick → (Db → Db) → Result (Option String) → Db → Result Bool × Db
  release_as record_id operator_id ev tick others (err e) db = (err e, db)
  release_as record_id operator_id ev tick others (ok action_id) db =
      let (done, db') =
        release_seen record_id operator_id (record ev { action_id = action_id }) tick others
          (find_one record_id db) db in
      (ok done, db')

  -- `release_for_retry`; its check of the transition from REPROCESSING to PENDING always passes.
  unfoldable pub release_for_retry :
      String → String → Evidence → Tick → (Db → Db) → Db → Result Bool × Db
  release_for_retry record_id operator_id ev tick others =
      release_as record_id operator_id ev tick others (bounded_action_id ev.action_id)

  abbrev pub resolve_until :
      String
      → QuarantineStatus
      → String
      → QuarantineAction
      → Evidence
      → Tick
      → (Db → Db)
      → IngestionQuarantineRecord
      → Result ℕ
      → Db
      → Result Bool × Db
  resolve_until record_id target operator_id a ev tick others seen (err e) db = (err e, db)
  resolve_until record_id target operator_id a ev tick others seen (ok days) db =
      let (done, db') =
        update_one record_id (is_owned operator_id ev.action_id tick.now seen)
          (resolved days target operator_id a ev tick seen) (others db) in
      (ok done, db')

  abbrev resolve_seen :
      RetentionPolicy
      → String
      → QuarantineStatus
      → String
      → QuarantineAction
      → Evidence
      → Tick
      → (Db → Db)
      → Option IngestionQuarantineRecord
      → Db
      → Result Bool × Db
  resolve_seen p record_id target operator_id a ev tick others none db = (ok false, db)
  resolve_seen p record_id target operator_id a ev tick others (some seen) db =
      if holds_claim operator_id tick.now seen
      then resolve_until record_id target operator_id a ev tick others seen (days_for p target) db
      else (ok false, db)

  abbrev pub resolve_as :
      RetentionPolicy
      → String
      → QuarantineStatus
      → String
      → QuarantineAction
      → Evidence
      → Tick
      → (Db → Db)
      → Result (Unit {0})
      → Result (Option String)
      → Db
      → Result Bool × Db
  resolve_as p record_id target operator_id a ev tick others (err e) action_id db = (err e, db)
  resolve_as p record_id target operator_id a ev tick others (ok _) (err e) db = (err e, db)
  resolve_as p record_id target operator_id a ev tick others (ok _) (ok action_id) db =
      resolve_seen p record_id target operator_id a (record ev { action_id = action_id }) tick
        others (find_one record_id db) db

  -- `resolve`
  unfoldable pub resolve :
      RetentionPolicy
      → String
      → QuarantineStatus
      → String
      → QuarantineAction
      → Evidence
      → Tick
      → (Db → Db)
      → Db
      → Result Bool × Db
  resolve p record_id target operator_id a ev tick others =
      resolve_as p record_id target operator_id a ev tick others
        (assert_quarantine_transition QuarantineStatus.reprocessing target)
        (bounded_action_id ev.action_id)

  abbrev pub reread : String → Bool × Db → Option IngestionQuarantineRecord × Db
  reread record_id (false, db) = (none, db)
  reread record_id (true, db) = (find_one record_id db, db)

  abbrev escalate_seen :
      String
      → String
      → QuarantineStatus
      → String
      → Tick
      → (Db → Db)
      → String
      → Option IngestionQuarantineRecord
      → Db
      → Option IngestionQuarantineRecord × Db
  escalate_seen record_id operator_id expected_status reason tick others action_id none db =
      (none, db)
  escalate_seen record_id operator_id expected_status reason tick others action_id (some seen) db =
      if may_escalate operator_id expected_status tick.now seen
      then reread record_id (
          update_one record_id (is_escalatable operator_id action_id tick.now seen)
            (escalated operator_id action_id reason tick seen) (others db))
      else (none, db)

  abbrev pub escalate_as :
      String
      → String
      → QuarantineStatus
      → String
      → Tick
      → (Db → Db)
      → Result (Option String)
      → Db
      → Result (Option IngestionQuarantineRecord) × Db
  escalate_as record_id operator_id expected_status reason tick others (err e) db = (err e, db)
  escalate_as record_id operator_id expected_status reason tick others (ok none) db = (ok none, db)
  escalate_as record_id operator_id expected_status reason tick others (ok (some action_id)) db =
      let (answer, db') =
        escalate_seen record_id operator_id expected_status reason tick others action_id
          (find_one record_id db) db in
      (ok answer, db')

  -- `escalate`
  unfoldable pub escalate :
      String
      → String
      → String
      → QuarantineStatus
      → String
      → Tick
      → (Db → Db)
      → Db
      → Result (Option IngestionQuarantineRecord) × Db
  escalate record_id operator_id action_id expected_status reason tick others =
      escalate_as record_id operator_id expected_status reason tick others
        (bounded_action_id (some action_id))
