-- ===== src/Examples/Resolutions.antt =====
-- An operator's rejection of a quarantined row, through src/application/ingestion/quarantine_service.py.
use reconciliation_ingestion.Prelude.{◌+◌, ◌*◌, true, false, [], ◌∷◌, none, some, ◌≡◌, refl}
use reconciliation_ingestion.Result.{ok, Post}
use reconciliation_ingestion.Quarantine.Values.{Value}
use reconciliation_ingestion.Quarantine.Types.{
  IngestionQuarantineRecord, QuarantineStatus, default_policy,
}
use reconciliation_ingestion.Quarantine.Updates.{bounded_action_id, claimed}
use reconciliation_ingestion.Quarantine.Repository.{holds_claim, conflict}
use reconciliation_ingestion.Resolution.Ports.{ReprocessMode, ReprocessRequest, Ports}
use reconciliation_ingestion.Resolution.Resolving.{resolve_claimed}
use reconciliation_ingestion.Resolution.Replay.{stripped_reason}
use reconciliation_ingestion.Resolution.Outcomes.{IsJustified}
use reconciliation_ingestion.Resolution.Justified.{success_is_settled}
use reconciliation_ingestion.Resolution.Rejecting.{on_repository, HasRejected}
use reconciliation_ingestion.Resolution.Stored.{rejection_is_done_once}
use reconciliation_ingestion.Examples.Documents.{records, Documents}
use reconciliation_ingestion.Examples.Records.{records-IsDocumentStore}
use reconciliation_ingestion.Examples.Quarantined.{worked, at}

-- The collaborators beside the repository: a row is processed as itself and written without a duplicate.
abbrev others : Ports Documents Value
others = record {
  find_action = λ k a db. (ok none, db);
  find_by_id = λ k db. (ok none, db);
  claim = λ k op a db. (ok none, db);
  reclaim_expired_claim = λ k db. (ok none, db);
  reserve_action = λ k op a act db. (ok conflict, db);
  release_for_retry = λ k op ev db. (ok false, db);
  resolve = λ k target op act ev db. (ok false, db);
  escalate = λ k op a expected reason db. (ok none, db);
  read_source_row = λ k n db. (ok none, db);
  read_raw_page_row = λ k n db. (ok none, db);
  process =
      λ d r row n db. (ok (record { is_valid = true; data_container = row; errors = [] }), db);
  persist = λ row db.
      (ok (record { conflicting_duplicates = 0; equivalent_duplicates = 0; failed = 0 }), db);
  existing_fingerprint = none;
  audit = λ e db. (ok tt, db);
  now = λ db. 0;
}

abbrev rejecting : ReprocessRequest
rejecting = record {
  record_id = "r-1";
  operator_id = "ann";
  action_id = " a2";
  expected_status = QuarantineStatus.reprocessing;
  mode = ReprocessMode.reject;
  corrected_row = none;
  mapping_version = none;
  expected_existing_fingerprint = none;
  reason = some " not ours ";
}

success_is_settled_example :
    Post (IsJustified (on_repository records default_policy (at 200) others) rejecting) (
      resolve_claimed
        (on_repository records default_policy (at 200) others)
        rejecting
        (worked ∷ []))
success_is_settled_example =
    success_is_settled (on_repository records default_policy (at 200) others) rejecting
      (worked ∷ [])

rejection_is_done_once_example :
    let service = on_repository records default_policy (at 200) others in
    let first = resolve_claimed service rejecting (worked ∷ []) in
    let again = resolve_claimed service rejecting first.1 in
    HasRejected first.0
    × (((e : IngestionQuarantineRecord) × ((records.find_one "r-1" first.1 ≡ some e)
            × ((e.status ≡ QuarantineStatus.rejected)
                × (e.retention_until ≡ some (200 + 365 * 86400)))))
        × (HasRejected again.0 × (again.1 ≡ first.1)))
unfolding claimed holds_claim bounded_action_id stripped_reason
rejection_is_done_once_example =
    rejection_is_done_once records records-IsDocumentStore default_policy (at 200) others
      (λ e db. refl) rejecting "a2" (worked ∷ []) worked refl refl refl refl refl refl refl refl
