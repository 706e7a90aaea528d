-- ===== src/Ingestion/Files.antt =====
-- `ReconciliationFileRepository` of src/infrastructure/ingestion/file_repository.py, over the collection of file
-- records. The database is not part of this repository: its operations are a parameter, and may raise.
use text.Mathlib.Text.{◌==◌ as str_eq}
use reconciliation_ingestion.Prelude.{
  ℕ, String, Bool, true, false, ◌&&◌, ◌||◌, Option, none, some, any, same_key, if◌then◌else◌,
}
use reconciliation_ingestion.Result.{Result, err, raised, Exec, pure, lift, ◌>>=◌}
use reconciliation_ingestion.Ingestion.Types.{ProcessingStatus, ReconciliationFile, FetchUnit}

-- `insert_one` gives false where the driver raises `DuplicateKeyError`; `find_one_and_update` returns the document
-- after the update; `update_one` is of the document with the given `_id`, and gives `modified_count > 0`.
pub record FileCollection : Type 1 where
  pub Db : Type 0
  pub find_one : (ReconciliationFile → Bool) → Db → Result (Option ReconciliationFile)
  pub insert_one : ReconciliationFile → Exec Db Bool
  pub find_one_and_update :
      (ReconciliationFile → Bool)
      → (ReconciliationFile → ReconciliationFile)
      → Exec Db (Option ReconciliationFile)
  pub update_one : String → (ReconciliationFile → ReconciliationFile) → Exec Db Bool

-- {"partner": partner, "fileHash": file_hash}
unfoldable pub is_delivery : String → String → ReconciliationFile → Bool
is_delivery partner file_hash d = str_eq d.partner partner && str_eq d.file_hash file_hash

abbrev pub is_failed : ProcessingStatus → Bool
is_failed ProcessingStatus.failed = true
is_failed _ = false

-- The query and the update of `reclaim_failed_by_file_hash`.
unfoldable pub is_failed_delivery : String → String → ReconciliationFile → Bool
unfolding is_delivery
is_failed_delivery partner file_hash d =
    is_delivery partner file_hash d && is_failed d.processing_status

unfoldable pub reclaimed_file : ReconciliationFile → ReconciliationFile
reclaimed_file d = record d {
  processing_status = ProcessingStatus.processing;
  total_rows = 0;
  success_rows = 0;
  failed_rows = 0;
  duplicate_rows = 0;
  stage_summary = "";
}

abbrev names_unit : String → Option FetchUnit → Bool
names_unit key none = false
names_unit key (some m) =
    same_key m.source_unit_key (some key) || any (str_eq key) m.source_unit_keys

-- The query of `find_by_fetch_unit_key`.
unfoldable pub is_fetch_unit : String → ReconciliationFile → Bool
is_fetch_unit key d = same_key d.fetch_unit_key (some key) || names_unit key d.fetch_unit_metadata

unfoldable pub with_stats : ℕ → ℕ → ℕ → ℕ → ReconciliationFile → ReconciliationFile
with_stats total success failed duplicate d = record d {
  total_rows = total;
  success_rows = success;
  failed_rows = failed;
  duplicate_rows = duplicate;
}

unfoldable pub with_status : ProcessingStatus → ReconciliationFile → ReconciliationFile
with_status status d = record d { processing_status = status }

unfoldable pub with_summary : String → ReconciliationFile → ReconciliationFile
with_summary summary d = record d { stage_summary = summary }

module _ (c : FileCollection) where
  open c use {Db, find_one, insert_one, find_one_and_update, update_one}

  -- `find_by_file_hash`
  unfoldable pub find_by_file_hash : String → String → Exec Db (Option ReconciliationFile)
  find_by_file_hash partner file_hash db = (find_one (is_delivery partner file_hash) db, db)

  -- `reclaim_failed_by_file_hash`
  unfoldable pub reclaim_failed_by_file_hash : String → String → Exec Db (Option ReconciliationFile)
  reclaim_failed_by_file_hash partner file_hash =
      find_one_and_update (is_failed_delivery partner file_hash) reclaimed_file

  -- `find_by_fetch_unit_key`
  unfoldable pub find_by_fetch_unit_key : String → Exec Db (Option ReconciliationFile)
  find_by_fetch_unit_key key db = (find_one (is_fetch_unit key) db, db)

  -- `if existing is None and doc.fetch_unit_key`
  abbrev pub find_by_its_unit : Option String → Exec Db (Option ReconciliationFile)
  find_by_its_unit none = pure none
  find_by_its_unit (some key) = if str_eq key "" then pure none else find_by_fetch_unit_key key

  abbrev pub existing_or_raise : Option ReconciliationFile → Exec Db (ReconciliationFile × Bool)
  existing_or_raise none = lift (err (raised "DuplicateKeyError"))
  existing_or_raise (some d) = pure (d, false)

  -- The file that stands in the way of an insertion.
  abbrev pub find_existing :
      ReconciliationFile → Option ReconciliationFile → Exec Db (ReconciliationFile × Bool)
  find_existing doc (some d) = pure (d, false)
  find_existing doc none = find_by_its_unit doc.fetch_unit_key >>= existing_or_raise

  abbrev pub created_or_existing : ReconciliationFile → Bool → Exec Db (ReconciliationFile × Bool)
  created_or_existing doc true = pure (doc, true)
  created_or_existing doc false = find_by_file_hash doc.partner doc.file_hash >>= find_existing doc

  -- `create_or_get_by_file_hash`
  unfoldable pub create_or_get_by_file_hash :
      ReconciliationFile → Exec Db (ReconciliationFile × Bool)
  unfolding ◌>>=◌ find_by_file_hash find_by_fetch_unit_key
  create_or_get_by_file_hash doc = insert_one doc >>= created_or_existing doc

  -- `update_processing_stats`
  unfoldable pub update_processing_stats : String → ℕ → ℕ → ℕ → ℕ → Exec Db Bool
  update_processing_stats id total success failed duplicate =
      update_one id (with_stats total success failed duplicate)

  -- `update_status`
  unfoldable pub update_status : String → ProcessingStatus → Exec Db Bool
  update_status id status = update_one id (with_status status)

  -- `update_stage_summary`
  unfoldable pub update_stage_summary : String → String → Exec Db Bool
  update_stage_summary id summary = update_one id (with_summary summary)
