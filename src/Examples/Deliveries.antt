-- ===== src/Examples/Deliveries.antt =====
-- Deliveries of one file: src/pipeline/ingestion_pipeline.py over the collection of one record.
use reconciliation_ingestion.Prelude.{String, str_eq, true, false, none, some, [], ◌∷◌, ◌≡◌, refl}
use reconciliation_ingestion.Result.{ok, Returns, Post}
use reconciliation_ingestion.Quality.Types.{QualityOutcome, evaluation}
use reconciliation_ingestion.Ingestion.Types.{
  ReconciliationFile, ProcessFileCommand, ProcessingStatus, RunOutcome,
}
use reconciliation_ingestion.Scope.Keys.{unconfirmed}
use reconciliation_ingestion.Scope.Files.{FileScope, scope_of_counts, classify_scope}
use reconciliation_ingestion.Ingestion.Files.{
  is_delivery, is_failed, is_fetch_unit, find_by_file_hash, create_or_get_by_file_hash,
}
use reconciliation_ingestion.Ingestion.Claim.{
  candidate, claim, claim_found, claim_result, derive_fetch_unit_key,
}
use reconciliation_ingestion.Ingestion.Races.{racing_claims_one_owner}
use reconciliation_ingestion.Ingestion.Skipped.{
  IsSkipped, taken_file-IsSkipped, changed_unit-IsSkipped,
}
use reconciliation_ingestion.Ingestion.Phases.{Ports, prepared, inspected}
use reconciliation_ingestion.Ingestion.Pipeline.{process_file}
use reconciliation_ingestion.Ingestion.Stored.{Settled}
use reconciliation_ingestion.Ingestion.Failures.{
  Nothing, FailureShown, result_is_stored, failure_is_stored,
}
use reconciliation_ingestion.Examples.Rows.{collaborators}
use reconciliation_ingestion.Examples.Shelf.{
  shelf, shelf-IsAcknowledged, shelf-IsFileStore, shelf-IsIndexed,
}

abbrev ports : Ports (Unit {0}) String String
ports = record {
  digests = record {
    compute_file_hash = λ path. ok "h1";
    identity_digest = λ command m. "u1";
    name_of = λ path. path;
  };
  counts = record {
    count_files = λ partner day. ok 0;
    count_internal = λ partner day. ok 0;
    existing = λ n partner. partner;
  };
  summary_of = λ s. "summary";
  prepare = λ d. ok (prepared tt);
  inspect = λ config. ok (inspected (evaluation QualityOutcome.valid [] none));
  read_rows = λ config. ok ("a" ∷ "b" ∷ "c" ∷ []);
  collaborators = λ config. collaborators;
  record_run_health = λ s. ok tt;
}

abbrev delivery : ProcessFileCommand
delivery = record {
  file_path = "bank.csv";
  partner = "bank";
  workflow_type = "file";
  file_type = "csv";
  reconciliation_date = "2024-01-01";
  config_version = none;
  fetch_unit_metadata = none;
  enable_config_health_check = true;
}

result_is_stored_example :
    Returns
      (Settled shelf shelf-IsFileStore (Nothing shelf shelf-IsFileStore))
      (process_file shelf ports "f1" delivery none)
result_is_stored_example = result_is_stored shelf shelf-IsFileStore ports "f1" delivery none

failure_is_stored_example :
    Returns
      (Settled shelf shelf-IsFileStore (FailureShown shelf shelf-IsFileStore))
      (process_file shelf ports "f1" delivery none)
failure_is_stored_example =
    failure_is_stored shelf shelf-IsFileStore ports "f1" delivery shelf-IsAcknowledged none

abbrev first_scope : FileScope
first_scope = scope_of_counts ports.counts.existing "bank" unconfirmed 0 0

abbrev claimed_file : ReconciliationFile
claimed_file = candidate ports.digests "f1" delivery "h1" none first_scope

first_claim :
    claim shelf ports.digests ports.counts "f1" delivery "h1" none none
    ≡ (ok (claim_result claimed_file true none), some claimed_file)
unfolding claim find_by_file_hash create_or_get_by_file_hash classify_scope
first_claim = refl

no_key : derive_fetch_unit_key ports.digests delivery none ≡ ok none
unfolding derive_fetch_unit_key
no_key = refl

claimed_found :
    shelf.find_one (is_delivery "bank" "h1") (some claimed_file) ≡ ok (some claimed_file)
unfolding is_delivery candidate
claimed_found = refl

claimed_kept : is_failed claimed_file.processing_status ≡ false
unfolding candidate
claimed_kept = refl

racing_claims_one_owner_example :
    Post
      (λ other _. other.created ≡ false)
      (claim_found shelf ports.digests ports.counts "f2" delivery "h1" none none
        (some claimed_file))
racing_claims_one_owner_example =
    racing_claims_one_owner shelf shelf-IsFileStore shelf-IsIndexed ports.digests ports.counts "f1"
      "f2" delivery delivery "h1" none none none (some claimed_file)
      (claim_result claimed_file true none) first_claim refl refl none

taken_file-IsSkipped_example :
    Returns
      (IsSkipped RunOutcome.file_duplicate (some claimed_file) claimed_file)
      (process_file shelf ports "f2" delivery (some claimed_file))
taken_file-IsSkipped_example =
    taken_file-IsSkipped shelf ports "f2" delivery (some claimed_file) "h1" none claimed_file refl
      no_key claimed_found claimed_kept

-- A page that is fetched again after its run has failed.
abbrev refetched : ProcessFileCommand
refetched = record delivery {
  fetch_unit_metadata = some (record {
    source_unit_key = some "u1";
    source_unit_keys = [];
    source_endpoint = none;
    page = none;
    cursor = none;
    window_start = none;
    window_end = none;
  });
}

abbrev failed_page : ReconciliationFile
failed_page = record (candidate ports.digests "f0" refetched "h0" (some "u1") first_scope) {
  processing_status = ProcessingStatus.failed;
}

page_key :
    derive_fetch_unit_key ports.digests refetched refetched.fetch_unit_metadata ≡ ok (some "u1")
unfolding derive_fetch_unit_key
page_key = refl

page_unseen : shelf.find_one (is_delivery "bank" "h1") (some failed_page) ≡ ok none
unfolding is_delivery candidate
page_unseen = refl

page_scope : classify_scope ports.counts "bank" (some "2024-01-01") unconfirmed ≡ ok first_scope
unfolding classify_scope
page_scope = refl

page_found : shelf.find_one (is_fetch_unit "u1") (some failed_page) ≡ ok (some failed_page)
unfolding is_fetch_unit candidate
page_found = refl

page_same : failed_page.fetch_unit_key ≡ some "u1"
unfolding candidate
page_same = refl

page_changed : str_eq failed_page.file_hash "h1" ≡ false
unfolding candidate
page_changed = refl

changed_unit-IsSkipped_example :
    Returns
      (IsSkipped RunOutcome.fetch_unit_replay (some failed_page) failed_page)
      (process_file shelf ports "f2" refetched (some failed_page))
changed_unit-IsSkipped_example =
    changed_unit-IsSkipped shelf ports "f2" refetched (some failed_page) "h1" "u1" first_scope
      failed_page refl page_key refl page_unseen page_scope refl page_found page_same page_changed
