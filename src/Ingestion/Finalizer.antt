-- ===== src/Ingestion/Finalizer.antt =====
-- `IngestionRunFinalizer` of src/pipeline/finalizer.py, on the run's objects. The error's own text and the stage
-- summary are passed on unread, and log lines are left out.
use reconciliation_ingestion.Prelude.{String, Bool, Option, none, some, if◌then◌else◌}
use reconciliation_ingestion.Result.{ok, Exec, pure, gets, modify, ◌>>=◌, ◌>>◌}
use reconciliation_ingestion.RunState.State.{IngestionRunState, ErrorEntry, add_error}
use reconciliation_ingestion.RunState.Defs.{is_partial}
use reconciliation_ingestion.Ingestion.Types.{ProcessingStatus, ReconciliationFile}
use reconciliation_ingestion.Ingestion.Files.{
  FileCollection, update_processing_stats, update_status, update_stage_summary, with_stats,
  with_status, with_summary,
}

-- What a run of the pipeline changes: the database, its run state, and the file record that it has claimed.
pub record World (Db : Type 0) : Type 0 where
  pub db : Db
  pub state : IngestionRunState
  pub file_record : Option ReconciliationFile

abbrev pub change_record :
    (ReconciliationFile → ReconciliationFile)
    → Option ReconciliationFile
    → Option ReconciliationFile
change_record f none = none
change_record f (some d) = some (f d)

module _ {Db : Type 0} where
  abbrev pub on_db : {A : Type 0} → Exec Db A → Exec (World Db) A
  on_db m w = let (r, db) = m w.db in (r, record w { db = db })

  abbrev pub on_run : (IngestionRunState → IngestionRunState) → Exec (World Db) (Unit {0})
  on_run f = modify (λ w. record w { state = f w.state })

  abbrev pub on_record : (ReconciliationFile → ReconciliationFile) → Exec (World Db) (Unit {0})
  on_record f = modify (λ w. record w { file_record = change_record f w.file_record })

  -- `try: ... except Exception: pass`
  abbrev pub attempt : {A : Type 0} → Exec (World Db) A → Exec (World Db) (Unit {0})
  attempt m w = let (r, t) = m w in (ok tt, t)

-- The status that `complete` gives.
abbrev pub completed_as : IngestionRunState → ProcessingStatus
completed_as s = if is_partial s then ProcessingStatus.partial else ProcessingStatus.completed

abbrev pub stats_of : IngestionRunState → ReconciliationFile → ReconciliationFile
stats_of s = with_stats s.total_rows s.success_rows s.failed_rows s.duplicate_rows

-- `_apply_stats`
unfoldable pub applied_stats :
    String → IngestionRunState → ProcessingStatus → ReconciliationFile → ReconciliationFile
unfolding with_stats with_status with_summary
applied_stats summary s status d = with_summary summary (stats_of s (with_status status d))

abbrev pub ingestion_error : ErrorEntry
ingestion_error = record { field = some "ingestion_error"; error_code = none }

module _ (c : FileCollection) (summary_of : IngestionRunState → String) where
  open c use {Db}

  abbrev M : Type 0 → Type 0
  M A = Exec (World Db) A

  abbrev write_stats : String → IngestionRunState → M Bool
  write_stats id s =
      on_db
        (update_processing_stats c id s.total_rows s.success_rows s.failed_rows s.duplicate_rows)

  -- `complete`, of the claimed record's `_id`.
  unfoldable pub complete : String → M (Unit {0})
  unfolding ◌>>=◌ applied_stats
  complete id = do
    s ← gets (λ w. w.state)
    stats_written ← write_stats id s
    status_written ← on_db (update_status c id (completed_as s))
    attempt (on_db (update_stage_summary c id (summary_of s)))
    on_record (applied_stats (summary_of s) s (completed_as s))

  -- The writes of `fail` in its first `try`.
  unfoldable pub mark_failed : String → IngestionRunState → M (Unit {0})
  unfolding ◌>>=◌ applied_stats
  mark_failed id s = do
    stats_written ← write_stats id s
    status_written ← on_db (update_status c id ProcessingStatus.failed)
    on_record (applied_stats (summary_of s) s ProcessingStatus.failed)

  abbrev pub fail_record : Option ReconciliationFile → IngestionRunState → M (Unit {0})
  fail_record none s = pure tt
  fail_record (some d) s =
      attempt (mark_failed d.id s) >> attempt (on_db (update_stage_summary c d.id (summary_of s)))

  -- `fail`, of the run's file record if it has one.
  unfoldable pub fail : M (Unit {0})
  unfolding ◌>>=◌ mark_failed
  fail = do w ← gets (λ w. w); fail_record w.file_record w.state; on_run (add_error ingestion_error)
