-- ===== src/Ingestion/Failing.antt =====
-- A run of src/pipeline/ingestion_pipeline.py that fails: wherever it stops, the record that it has claimed is at
-- hand, and `fail` of src/pipeline/finalizer.py marks it.
use reconciliation_ingestion.Prelude.{
  String, Bool, none, some, ◌≡◌, refl, sym, subst, inl, inr, arith,
}
use reconciliation_ingestion.Result.{
  Result, ok, err, Returns, Returns-bind, Returns-Post, IsReturned, ◌>>=◌,
}
use reconciliation_ingestion.RunState.State.{IngestionRunState, ErrorEntry, add_error}
use reconciliation_ingestion.Ingestion.Types.{ProcessingStatus, ReconciliationFile}
use reconciliation_ingestion.Ingestion.Files.{
  FileCollection, update_processing_stats, update_status, update_stage_summary, with_status,
  with_summary,
}
use reconciliation_ingestion.Ingestion.Finalizer.{
  World, on_db, attempt, fail, fail_record, mark_failed, stats_of, ingestion_error,
}
use reconciliation_ingestion.Ingestion.Store.{IsFileStore, At, At-attempt}
use reconciliation_ingestion.Ingestion.Finished.{
  IsDone, Finished, with_summary-KeepsId, with_summary-IsDone, written_both, finish_record,
  written-IsDone,
}

-- Updates that are acknowledged.
abbrev pub IsAcknowledged : FileCollection → Type 0
IsAcknowledged c =
    (k : String) (f : ReconciliationFile → ReconciliationFile) (db : c.Db)
    → IsReturned (c.update_one k f db).0

module _ {S A : Type 0} where
  -- What holds of a call that returns holds of the state that it leaves.
  left_state : (Q : S → Type 0) (x : Result A × S) → Returns (λ _ t. Q t) x → Q x.1
  left_state Q (ok a, t) h = h
  left_state Q (err e, t) h = absurd h

add_error-IsDone :
    (st : ProcessingStatus) (e : ErrorEntry) (r : IngestionRunState) (d : ReconciliationFile)
    → IsDone st r d
    → IsDone st (add_error e r) d
unfolding add_error
add_error-IsDone st e r d h = ground arith

module _ (c : FileCollection) (s : IsFileStore c) (sure : IsAcknowledged c) where
  open c use {Db}

  on_db-Returns :
      (k : String) (f : ReconciliationFile → ReconciliationFile) (w : World Db)
      → Returns (λ _ _. Unit {0}) (on_db (c.update_one k f) w)
  on_db-Returns k f w = answer (c.update_one k f w.db) (sure k f w.db)
    where
      answer :
          (x : Result Bool × Db)
          → IsReturned x.0
          → Returns (λ _ _. Unit {0}) (x.0, record w { db = x.1 })
      answer (ok b, db) h = tt
      answer (err e, db) h = h

  module _ (summary_of : IngestionRunState → String) (k : String) where
    mark_failed-Returns :
        (r : IngestionRunState) (w : World Db)
        → Returns (λ _ _. Unit {0}) (mark_failed c summary_of k r w)
    unfolding mark_failed update_processing_stats update_status
    mark_failed-Returns r w =
        Returns-bind (λ _ _. Unit {0}) (λ _ _. Unit {0}) (on_db (c.update_one k (stats_of r))) _ w
          (on_db-Returns k (stats_of r) w)
          (λ _ t _.
            Returns-bind (λ _ _. Unit {0}) (λ _ _. Unit {0})
              (on_db (c.update_one k (with_status ProcessingStatus.failed))) _ t
              (on_db-Returns k _ t) (λ _ u _. tt))

    mark_failed-Finished :
        (w : World Db) (d e : ReconciliationFile)
        → d.id ≡ k
        → At c s k d e w
        → Returns
            (λ _ t. Finished c s k ProcessingStatus.failed t)
            (mark_failed c summary_of k w.state w)
    unfolding mark_failed
    mark_failed-Finished w d e i a =
        Returns-Post (λ _ _. Unit {0}) (λ _ t. Finished c s k ProcessingStatus.failed t) _
          (mark_failed-Returns w.state w)
          (written_both c s summary_of k ProcessingStatus.failed
            (λ _ t. Finished c s k ProcessingStatus.failed t) w.state w d e _ a refl
            (λ x y t b q.
              finish_record c s summary_of k ProcessingStatus.failed w.state t d _ i b q
                (written-IsDone ProcessingStatus.failed w.state e)))

    -- The stage summary of a record that is done.
    Finished-summary :
        (st : ProcessingStatus) (t : String) (w : World Db)
        → Finished c s k st w
        → Finished c s k st (attempt (on_db (update_stage_summary c k t)) w).1
    unfolding update_stage_summary
    Finished-summary st t w f =
        elim (At-attempt c s k (with_summary t) (with_summary-KeepsId t) w f.own_record f.document
          f.at).0 [
            | inl b ↦ record {
              own_record = f.own_record;
              document = f.document;
              same_id = f.same_id;
              at = b;
              own_done = f.own_done;
              document_done = f.document_done;
            }
            | inr b ↦ record {
              own_record = f.own_record;
              document = with_summary t f.document;
              same_id = f.same_id;
              at = b;
              own_done = f.own_done;
              document_done = with_summary-IsDone st w.state t f.document f.document_done;
            }
          ]

    Finished-error :
        (st : ProcessingStatus) (x : ErrorEntry) (w : World Db)
        → Finished c s k st w
        → Finished c s k st (record w { state = add_error x w.state })
    Finished-error st x w f = record {
      own_record = f.own_record;
      document = f.document;
      same_id = f.same_id;
      at = record { own = f.at.own; stored = f.at.stored };
      own_done = add_error-IsDone st x w.state f.own_record f.own_done;
      document_done = add_error-IsDone st x w.state f.document f.document_done;
    }

  module _ (summary_of : IngestionRunState → String) where
    fail_record-Finished :
        (w : World Db) (d e : ReconciliationFile)
        → At c s d.id d e w
        → Returns
            (λ _ t. Finished c s d.id ProcessingStatus.failed t)
            (fail_record c summary_of (some d) w.state w)
    unfolding ◌>>=◌
    fail_record-Finished w d e a =
        Finished-summary summary_of d.id ProcessingStatus.failed (summary_of w.state) _ (
          left_state _ (mark_failed c summary_of d.id w.state w)
            (mark_failed-Finished summary_of d.id w d e refl a))

    -- `fail` of a run with a record marks the record and its document, where the updates are acknowledged.
    pub fail-Finished :
        (w : World Db) (d e : ReconciliationFile)
        → At c s d.id d e w
        → Returns (λ _ t. Finished c s d.id ProcessingStatus.failed t) (fail c summary_of w)
    unfolding fail
    fail-Finished w d e a =
        Returns-bind (λ _ t. Finished c s d.id ProcessingStatus.failed t)
          (λ _ t. Finished c s d.id ProcessingStatus.failed t)
          (fail_record c summary_of w.file_record w.state) _ w
          (subst
            (λ o.
              Returns (λ _ t. Finished c s d.id ProcessingStatus.failed t)
                (fail_record c summary_of o w.state w))
            (sym a.own) (fail_record-Finished w d e a))
          (λ _ t f. Finished-error summary_of d.id ProcessingStatus.failed ingestion_error t f)

-- Without a record there is nothing to mark.
pub fail-none :
    (c : FileCollection) (summary_of : IngestionRunState → String) (w : World c.Db)
    → w.file_record ≡ none
    → Returns (λ _ t. t.file_record ≡ none) (fail c summary_of w)
unfolding fail
fail-none c summary_of w n =
    Returns-bind (λ _ t. t.file_record ≡ none) (λ _ t. t.file_record ≡ none)
      (fail_record c summary_of w.file_record w.state) _ w
      (subst (λ o. Returns (λ _ t. t.file_record ≡ none) (fail_record c summary_of o w.state w))
        (sym n) n)
      (λ _ t m. m)
