-- ===== src/Ingestion/Claim.antt =====
-- `FileClaimService` of src/pipeline/file_claim.py. The hash of a file's bytes and of an identity's canonical text
-- are the two parameters of `Digests`.
use reconciliation_ingestion.Prelude.{
  String, Bool, true, false, ◌&&◌, ◌||◌, not, Option, none, some, str_eq, same_key, is_some,
  if◌then◌else◌,
}
use reconciliation_ingestion.Result.{Result, ok, err, value_error, Exec, pure, lift, ◌>>=◌}
use reconciliation_ingestion.Quarantine.Texts.{strip}
use reconciliation_ingestion.Scope.Keys.{unconfirmed}
use reconciliation_ingestion.Scope.Files.{FileScope, ScopeCounts, classify_scope}
use reconciliation_ingestion.Ingestion.Types.{
  ProcessingStatus, ReconciliationFile, FetchUnit, FileClaimResult, ProcessFileCommand,
}
use reconciliation_ingestion.Ingestion.Files.{
  FileCollection, find_by_file_hash, reclaim_failed_by_file_hash, create_or_get_by_file_hash,
  is_failed,
}

pub record Digests : Type 0 where
  pub compute_file_hash : String → Result String
  pub identity_digest : ProcessFileCommand → FetchUnit → String
  pub name_of : String → String

-- `isinstance(key, str) and key.strip()`
abbrev explicit_key : Option String → Option String
explicit_key none = none
explicit_key (some key) = if str_eq (strip key) "" then none else some (strip key)

-- `not identity["sourceEndpoint"]`
abbrev is_absent : Option String → Bool
is_absent none = true
is_absent (some s) = str_eq s ""

abbrev derived_key :
    Digests → ProcessFileCommand → FetchUnit → Option String → Result (Option String)
derived_key g command m (some key) = ok (some key)
derived_key g command m none =
    if is_absent m.source_endpoint
    then err (value_error "fetch_unit metadata requires sourceEndpoint")
    else if is_some m.page || (is_some m.cursor || (is_some m.window_start || is_some m.window_end))
    then ok (some (g.identity_digest command m))
    else err (value_error "fetch_unit metadata requires page, cursor, or a fetch window")

-- `derive_fetch_unit_key`; metadata that is empty counts as none.
unfoldable pub derive_fetch_unit_key :
    Digests → ProcessFileCommand → Option FetchUnit → Result (Option String)
unfolding strip
derive_fetch_unit_key g command none = ok none
derive_fetch_unit_key g command (some m) = derived_key g command m (explicit_key m.source_unit_key)

abbrev pub claim_result : ReconciliationFile → Bool → Option String → FileClaimResult
claim_result d created code = record { file_record = d; created = created; duplicate_code = code }

abbrev already_there : ReconciliationFile → FileClaimResult
already_there d = claim_result d false (some "file_duplicate")

-- The code of a claim that found a file.
unfoldable pub duplicate_code_of : Option String → String → ReconciliationFile → String
duplicate_code_of none file_hash d = "file_duplicate"
duplicate_code_of (some key) file_hash d =
    if not (str_eq key "")
      && (same_key d.fetch_unit_key (some key) && not (str_eq d.file_hash file_hash))
    then "fetch_unit_duplicate"
    else "file_duplicate"

unfoldable pub candidate :
    Digests → String → ProcessFileCommand → String → Option String → FileScope → ReconciliationFile
candidate g id command file_hash fetch_unit_key scope = record {
  id = id;
  partner = command.partner;
  file_name = g.name_of command.file_path;
  file_hash = file_hash;
  file_type = command.file_type;
  reconciliation_date = command.reconciliation_date;
  processing_status = ProcessingStatus.processing;
  total_rows = 0;
  success_rows = 0;
  failed_rows = 0;
  duplicate_rows = 0;
  stage_summary = "";
  config_version = command.config_version;
  fetch_unit_key = fetch_unit_key;
  fetch_unit_metadata = command.fetch_unit_metadata;
  source_file_path = command.file_path;
  scope = scope;
}

module _ (c : FileCollection) (g : Digests) (counts : ScopeCounts String) (id : String)
    (command : ProcessFileCommand) where
  open c use {Db}

  abbrev pub claim_created : String → Option String → ReconciliationFile × Bool → FileClaimResult
  claim_created file_hash key (d, true) = claim_result d true none
  claim_created file_hash key (d, false) =
      claim_result d false (some (duplicate_code_of key file_hash d))

  abbrev pub claim_new : String → Option String → Exec Db FileClaimResult
  claim_new file_hash key = do
    scope ←
        lift (classify_scope counts command.partner (some command.reconciliation_date) unconfirmed)
    answer ← create_or_get_by_file_hash c (candidate g id command file_hash key scope)
    pure (claim_created file_hash key answer)

  abbrev pub claim_reclaimed :
      ReconciliationFile → Option ReconciliationFile → Exec Db FileClaimResult
  claim_reclaimed existing none = pure (already_there existing)
  claim_reclaimed existing (some d) = pure (claim_result d true none)

  abbrev pub claim_existing : String → ReconciliationFile → Exec Db FileClaimResult
  claim_existing file_hash existing =
      if is_failed existing.processing_status
      then (reclaim_failed_by_file_hash c command.partner file_hash >>= claim_reclaimed existing)
      else pure (already_there existing)

  abbrev pub claim_found :
      String → Option String → Option ReconciliationFile → Exec Db FileClaimResult
  claim_found file_hash key none = claim_new file_hash key
  claim_found file_hash key (some existing) = claim_existing file_hash existing

  -- `claim`, with the hash and the key that `_claim_source_file` has computed; `id` is the new record's.
  unfoldable pub claim : String → Option String → Exec Db FileClaimResult
  unfolding ◌>>=◌ duplicate_code_of candidate
  claim file_hash key = find_by_file_hash c command.partner file_hash >>= claim_found file_hash key
