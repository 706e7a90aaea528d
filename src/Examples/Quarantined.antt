-- ===== src/Examples/Quarantined.antt =====
-- A rejected row in quarantine, claimed, reserved and settled by an operator:
-- src/infrastructure/ingestion/quarantine_repository.py on a collection in memory.
use reconciliation_ingestion.Prelude.{
  ℕ, ◌+◌, ◌*◌, ◌≤◌, any, same_key, str_eq, true, false, arith, [], ◌∷◌, none, some, All, ◌≡◌, refl,
  ap, ◌⊎◌,
}
use reconciliation_ingestion.Result.{ok, IsOk}
use reconciliation_ingestion.Quarantine.Values.{
  Value, object, array, string, integer, entry, no_entries, item, no_items, sanitize_raw_row,
  bounded_metadata,
}
use reconciliation_ingestion.Quarantine.Types.{
  IngestionQuarantineRecord, QuarantineStatus, validation, on_record, high, default_policy,
  reprocess, reject, is_active,
}
use reconciliation_ingestion.Quarantine.Issues.{
  IssueType, issue_type_for_error_code, error_codes_for_issue_type,
}
use reconciliation_ingestion.Quality.Types.{malformed_row, code_value}
use reconciliation_ingestion.Quarantine.Texts.{codes}
use reconciliation_ingestion.Quarantine.Categories.{
  PersistedCode, of_rule, text_of, category_of, IgnoresCase, ended, same, small,
  codes_have_one_category,
}
use reconciliation_ingestion.Quarantine.Updates.{
  Tick, Evidence, claimed, reclaimed, reserved, resolved, is_claimable, is_reclaimable,
  bounded_action_id,
}
use reconciliation_ingestion.Quarantine.Repository.{
  claim, reclaim_expired_claim, reserve_action, release_for_retry, resolve, in_progress,
  holds_claim,
}
use reconciliation_ingestion.Quarantine.Lifecycle.{
  IsInOrder, created, stepped, claiming, reclaiming,
}
use reconciliation_ingestion.Quarantine.Invariant.{Reachable-IsInOrder_record}
use reconciliation_ingestion.Quarantine.Course.{
  none_yet, further, IsAllowed, IsExtended, Step-IsAllowed,
}
use reconciliation_ingestion.Quarantine.Operations.{
  claim_it, undisturbed, perform, IsMoved, repository_makes_steps,
}
use reconciliation_ingestion.Quarantine.Once.{action_is_applied_once}
use reconciliation_ingestion.Quarantine.Lost.{IsRefused, taken_over, lost_claim_is_fenced}
use reconciliation_ingestion.Quarantine.Settling.{IsSettled, holder_settles}
use reconciliation_ingestion.Quarantine.Leftover.{reservation_outlives_claim}
use reconciliation_ingestion.Quarantine.Queries.{
  QuarantineQuery, purge_expired, find_blockers, has_unresolved_blockers, is_purgeable,
}
use reconciliation_ingestion.Quarantine.Summaries.{group_records, summarize}
use reconciliation_ingestion.Quarantine.Counts.{AddsUp, AllAddUp, totals, groups_cover_records}
use reconciliation_ingestion.Quarantine.Totals.{summary-AddsUp}
use reconciliation_ingestion.Quarantine.Blocking.{IsBlocking, IsListed}
use reconciliation_ingestion.Quarantine.Purging.{worked_on, purge_keeps_evidence, conflicts_block}
use reconciliation_ingestion.Quarantine.Redaction.{
  IsClean, AreBounded, row_is_redacted, metadata_is_bounded,
}
use reconciliation_ingestion.Examples.Documents.{records}
use reconciliation_ingestion.Examples.Records.{records-IsDocumentStore}

abbrev rejected_row : Value
rejected_row = object (
    entry "amount" (string "12,50") (
      entry "Api-Key" (string "k-123")
        (entry "lines" (array (item (integer 3) no_items)) no_entries)))

abbrev arrived : IngestionQuarantineRecord
arrived = record {
  id = "r-1";
  source_file_id = "file-1";
  source_unit_key = some "unit-1";
  review_packet_id = none;
  post_approval_run_id = none;
  partner = "acme";
  reconciliation_date = 0;
  row_number = some 7;
  raw_row = rejected_row;
  ingestion_key = none;
  incoming_fingerprint = some "f2";
  existing_fingerprint = some "f1";
  errors =
      record { error_code = some "CONFLICTING_DUPLICATE"; error_code_snake = none; code = none }
      ∷ [];
  phase = validation;
  severity = on_record;
  config_version = none;
  status = QuarantineStatus.pending;
  priority = high;
  review_due_at = some 50;
  escalation_level = 0;
  escalated_at = none;
  escalated_by = none;
  last_action_id = none;
  attempt_count = 1;
  expires_at = some 9000;
  claimed_by = none;
  claimed_at = none;
  claim_expires_at = none;
  last_attempt_error = none;
  resolution_metadata = no_entries;
  resolution_history = [];
  retention_until = none;
  created_at = 10;
  updated_at = 10;
  active_action = none;
}

abbrev pub at : ℕ → Tick
at t = record { now = t; event_time = t; event_id = "e" }

abbrev pub worked : IngestionQuarantineRecord
worked = claimed "ann" 900 (some "a1") (at 100) arrived arrived

abbrev because : Evidence
because = record {
  reason = "not ours";
  metadata = entry "origin" (string "ledger") (entry "rawRow" rejected_row no_entries);
  action_id = some "a2";
  outcome = some "REJECTED";
}

abbrev settled : IngestionQuarantineRecord
settled = resolved 365 QuarantineStatus.rejected "ann" reject because (at 200) worked worked

abbrev bad_row : PersistedCode
bad_row = of_rule malformed_row

lower_case : IgnoresCase (codes "Malformed_Row") (codes (text_of bad_row))
unfolding code_value
lower_case = same 77 _ _ (
    small 65 _ _ (omega arith) (omega arith) (
      small 76 _ _ (omega arith) (omega arith) (
        small 70 _ _ (omega arith) (omega arith) (
          small 79 _ _ (omega arith) (omega arith) (
            small 82 _ _ (omega arith) (omega arith) (
              small 77 _ _ (omega arith) (omega arith) (
                small 69 _ _ (omega arith) (omega arith) (
                  small 68 _ _ (omega arith) (omega arith) (
                    same 95 _ _ (
                      same 82 _ _ (
                        small 79 _ _ (omega arith) (omega arith)
                          (small 87 _ _ (omega arith) (omega arith) ended))))))))))))

codes_have_one_category_example :
    (issue_type_for_error_code (some "Malformed_Row") ≡ category_of bad_row)
    × (any (str_eq (text_of bad_row)) (error_codes_for_issue_type (category_of bad_row)) ≡ true)
    × ((IssueType.duplicate ≡ category_of bad_row)
        ⊎ (any (str_eq (text_of bad_row)) (error_codes_for_issue_type IssueType.duplicate) ≡ false))
codes_have_one_category_example =
    codes_have_one_category bad_row "Malformed_Row" IssueType.duplicate lower_case

Reachable-IsInOrder_record_example : IsInOrder worked
unfolding is_claimable
Reachable-IsInOrder_record_example = Reachable-IsInOrder_record worked (
    stepped arrived worked (created arrived refl)
      (claiming "ann" 900 (some "a1") (at 100) arrived refl))

Step-IsAllowed_example :
    (is_active arrived.status ≡ true)
    × (IsAllowed arrived.status worked.status
        × IsExtended arrived.resolution_history worked.resolution_history)
unfolding is_claimable
Step-IsAllowed_example =
    Step-IsAllowed arrived worked (claiming "ann" 900 (some "a1") (at 100) arrived refl)

repository_makes_steps_example :
    IsMoved records "r-1" arrived
      (perform records "r-1" (claim_it "ann" 900 (some "a1") (at 100)) (arrived ∷ []))
repository_makes_steps_example =
    repository_makes_steps records records-IsDocumentStore "r-1"
      (claim_it "ann" 900 (some "a1") (at 100)) (arrived ∷ []) arrived refl

-- The claim has run out, and another operator sends the same action again.
action_is_applied_once_example :
    perform records "r-1" (claim_it "bob" 60 (some " a1 ") (at 1500)) (reclaimed 1200 worked ∷ [])
    ≡ reclaimed 1200 worked ∷ []
unfolding claimed is_reclaimable reclaimed bounded_action_id
action_is_applied_once_example =
    action_is_applied_once records records-IsDocumentStore "r-1" "a1" worked (reclaimed 1200 worked)
      (claim_it "bob" 60 (some " a1 ") (at 1500)) (reclaimed 1200 worked ∷ []) refl
      (further worked (reclaimed 1200 worked) none_yet (reclaiming 1200 refl)) refl refl

-- The lease runs out and another operator claims the record while the first one resolves it.
abbrev taken_record : IngestionQuarantineRecord
taken_record = record worked { claimed_by = some "bob" }

lost_claim_is_fenced_example :
    IsRefused records records-IsDocumentStore "ann" 200 worked
      (λ db. taken_record ∷ [])
      (worked ∷ [])
      (release_for_retry records "r-1" "ann" because
        (at 200)
        (λ db. taken_record ∷ [])
        (worked ∷ []))
    × IsRefused records records-IsDocumentStore "ann" 200 worked
        (λ db. taken_record ∷ [])
        (worked ∷ [])
        (resolve records default_policy "r-1" QuarantineStatus.resolved "ann" reprocess because
          (at 200)
          (λ db. taken_record ∷ [])
          (worked ∷ []))
unfolding claimed
lost_claim_is_fenced_example =
    lost_claim_is_fenced records records-IsDocumentStore (λ db. taken_record ∷ []) "r-1" "ann"
      because (at 200) default_policy QuarantineStatus.resolved reprocess (worked ∷ []) worked
      taken_record refl refl (taken_over (λ e. cc (ap (λ o. same_key o (some "ann")) e)))

holder_settles_example :
    IsSettled records records-IsDocumentStore "r-1" QuarantineStatus.rejected (200 + 365 * 86400) (
      resolve records default_policy "r-1" QuarantineStatus.rejected "ann" reject because
        (at 200)
        (undisturbed records)
        (worked ∷ []))
unfolding claimed holds_claim bounded_action_id
holder_settles_example =
    holder_settles records records-IsDocumentStore "r-1" "ann" reject because (at 200)
      default_policy QuarantineStatus.rejected (some "a2") (worked ∷ []) worked refl refl refl refl
      refl

abbrev half_done : IngestionQuarantineRecord
half_done = reserved "ann" "a2" reject 150 worked

reservation_outlives_claim_example :
    let claimed_db =
      (claim records "r-1" "bob" 900
        (some "b1")
        (at 1300)
        (undisturbed records)
        (reclaim_expired_claim records "r-1" 1200 (half_done ∷ [])).1).1 in
    reserve_action records "r-1" "bob" "b2" reject (at 1400) (undisturbed records) claimed_db
    ≡ (ok in_progress, claimed_db)
unfolding claimed reserved is_reclaimable bounded_action_id
reservation_outlives_claim_example =
    reservation_outlives_claim records records-IsDocumentStore "r-1" "bob" "b2" "b2" "b1"
      (some "b1") 900 1200 reject (at 1300) (at 1400) (half_done ∷ []) half_done refl refl refl refl
      refl refl refl refl refl

groups_cover_records_example :
    (totals (group_records 100 (arrived ∷ worked ∷ []) []) ≡ 2)
    × AllAddUp (group_records 100 (arrived ∷ worked ∷ []) [])
groups_cover_records_example = groups_cover_records 100 (arrived ∷ worked ∷ [])

abbrev whole_queue : QuarantineQuery
whole_queue = record {
  partner = some "acme";
  status = none;
  phase = none;
  error_code = none;
  source_file_id = none;
  source_unit_key = none;
  review_packet_id = none;
  post_approval_run_id = none;
  claimed_by = none;
  priority = none;
  issue_type = some IssueType.duplicate;
  overdue = none;
  from_date = none;
  to_date = none;
  limit = 100;
  cursor = none;
}

summary-AddsUp_example : AddsUp (summarize records whole_queue 100 (arrived ∷ settled ∷ []))
summary-AddsUp_example =
    summary-AddsUp records records-IsDocumentStore whole_queue 100 (arrived ∷ settled ∷ [])

purge_keeps_evidence_example :
    (records.find_one "r-1" (purge_expired records 99999999 10 (worked ∷ [])).1 ≡ some worked)
    × IsOk (λ n. n ≤ 10) (purge_expired records 99999999 10 (worked ∷ [])).0
unfolding claimed is_purgeable
purge_keeps_evidence_example =
    purge_keeps_evidence records records-IsDocumentStore 99999999 10 "r-1" (worked ∷ []) worked refl
      (worked_on refl)

conflicts_block_example :
    (has_unresolved_blockers records "unit-1" (arrived ∷ [])
      ≡ any
          (λ d. any (λ e. same_key e.error_code (some "CONFLICTING_DUPLICATE")) d.errors)
          (find_blockers records "unit-1" (arrived ∷ [])))
    × All (IsBlocking "unit-1") (find_blockers records "unit-1" (arrived ∷ []))
    × IsListed "unit-1" (find_blockers records "unit-1" (arrived ∷ [])) (some arrived)
conflicts_block_example =
    conflicts_block records records-IsDocumentStore "unit-1" "r-1" (arrived ∷ [])

row_is_redacted_example : IsClean 512 (sanitize_raw_row 512 rejected_row)
row_is_redacted_example = row_is_redacted 512 rejected_row

metadata_is_bounded_example : AreBounded (bounded_metadata because.metadata)
metadata_is_bounded_example = metadata_is_bounded because.metadata
