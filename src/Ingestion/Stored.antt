-- ===== src/Ingestion/Stored.antt =====
-- `_process_file` of src/pipeline/ingestion_pipeline.py: what its result says is what the database holds.
use reconciliation_ingestion.Prelude.{
  String, Bool, true, false, none, some, ◌≡◌, ap, ◌∙◌, sym, subst, inl, inr, if◌then◌else◌,
}
use reconciliation_ingestion.Result.{Result, ok, err, Post, Post-bind, ◌>>=◌, lift, pure}
use reconciliation_ingestion.RunState.State.{IngestionRunState}
use reconciliation_ingestion.RunState.Defs.{is_partial}
use reconciliation_ingestion.Ingestion.Types.{
  ProcessingStatus, ReconciliationFile, RunOutcome, IngestionResult, ProcessingStats,
}
use reconciliation_ingestion.Ingestion.Files.{FileCollection, update_stage_summary, with_summary}
use reconciliation_ingestion.Ingestion.Finalizer.{
  World, change_record, on_db, attempt, complete, completed_as,
}
use reconciliation_ingestion.Ingestion.Phases.{Ports, build_result, partial_if}
use reconciliation_ingestion.Ingestion.Pipeline.{persist_stage_summary, finalize_success}
use reconciliation_ingestion.Ingestion.Store.{IsFileStore, At, At-attempt}
use reconciliation_ingestion.Ingestion.Finished.{
  IsDone, Finished, complete-Finished, with_summary-KeepsId,
}

-- A property that the stage summary takes no part in.
abbrev pub IgnoresSummary : (ReconciliationFile → Type 0) → Type 0
IgnoresSummary P = (t : String) (d : ReconciliationFile) → P d → P (with_summary t d)

-- A record with a status and the counts of a result.
pub record Shows (st : ProcessingStatus) (n : ProcessingStats) (d : ReconciliationFile)
    : Type 0 where
  pub status : d.processing_status ≡ st
  pub total : d.total_rows ≡ n.total_rows
  pub success : d.success_rows ≡ n.success_rows
  pub failed : d.failed_rows ≡ n.failed_rows
  pub duplicate : d.duplicate_rows ≡ n.duplicate_rows

module _ (c : FileCollection) (s : IsFileStore c) where
  open c use {Db}

  -- The result's record and its document show the same status and the counts of the result.
  pub record Ends (st : ProcessingStatus) (x : IngestionResult) (w : World Db) : Type 0 where
    pub own_record : ReconciliationFile
    pub document : ReconciliationFile
    pub own : x.file_record ≡ some own_record
    pub stored : s.document w.db own_record.id ≡ some document
    pub own_shows : Shows st x.stats own_record
    pub document_shows : Shows st x.stats document

  -- The result's record and its document wait for an approval.
  pub record Waits (x : IngestionResult) (w : World Db) : Type 0 where
    pub own_record : ReconciliationFile
    pub document : ReconciliationFile
    pub own : x.file_record ≡ some own_record
    pub stored : s.document w.db own_record.id ≡ some document
    pub own_status : own_record.processing_status ≡ ProcessingStatus.pending
    pub document_status : document.processing_status ≡ ProcessingStatus.pending

  -- The result's record is its document.
  pub record Repeats (x : IngestionResult) (w : World Db) : Type 0 where
    pub own_record : ReconciliationFile
    pub own : x.file_record ≡ some own_record
    pub stored : s.document w.db own_record.id ≡ some own_record

  -- What a result says, where `F` is what it says as FAILED.
  module _ (F : IngestionResult → World Db → Type 0) where
    abbrev SettledAs : RunOutcome → IngestionResult → World Db → Type 0
    SettledAs RunOutcome.ingested x w = Ends ProcessingStatus.completed x w
    SettledAs RunOutcome.partial x w = Ends ProcessingStatus.partial x w
    SettledAs RunOutcome.waiting_review x w = Waits x w
    SettledAs RunOutcome.file_duplicate x w = Repeats x w
    SettledAs RunOutcome.fetch_unit_replay x w = Repeats x w
    SettledAs RunOutcome.failed x w = F x w

    abbrev pub Settled : IngestionResult → World Db → Type 0
    Settled x w = SettledAs x.outcome x w

  -- The run has a record, its document is there, and `P` holds of both.
  pub record Claimed (P : ReconciliationFile → Type 0) (k : String) (w : World Db) : Type 0 where
    pub own_record : ReconciliationFile
    pub document : ReconciliationFile
    pub same_id : own_record.id ≡ k
    pub at : At c s k own_record document w
    pub own_is : P own_record
    pub document_is : P document

  IsDone-Shows :
      (st : ProcessingStatus) (r : IngestionRunState) (d : ReconciliationFile)
      → IsDone st r d
      → Shows st (build_result RunOutcome.ingested none none r).stats d
  unfolding build_result
  IsDone-Shows st r d h = record {
    status = h.status;
    total = h.total;
    success = h.success;
    failed = h.failed;
    duplicate = h.duplicate;
  }

  pub Ends-finished :
      (o : RunOutcome) (k : String) (st : ProcessingStatus) (w : World Db)
      → Finished c s k st w
      → Ends st (build_result o none w.file_record w.state) w
  unfolding build_result
  Ends-finished o k st w f = record {
    own_record = f.own_record;
    document = f.document;
    own = f.at.own;
    stored = subst (λ i. s.document w.db i ≡ some f.document) (sym f.same_id) f.at.stored;
    own_shows = IsDone-Shows st w.state f.own_record f.own_done;
    document_shows = IsDone-Shows st w.state f.document f.document_done;
  }

  module _ (F : IngestionResult → World Db → Type 0) where
    by_partial :
        (b : Bool) (x : IngestionResult) (w : World Db)
        → Ends (if b then ProcessingStatus.partial else ProcessingStatus.completed) x w
        → SettledAs F (partial_if b RunOutcome.ingested) x w
    by_partial true x w h = h
    by_partial false x w h = h

    pub Settled-finished :
        (k : String) (w : World Db)
        → Finished c s k (completed_as w.state) w
        → Settled F (build_result RunOutcome.ingested none w.file_record w.state) w
    unfolding build_result
    Settled-finished k w f =
        by_partial (is_partial w.state) _ w
          (Ends-finished RunOutcome.ingested k (completed_as w.state) w f)

    -- A run with rejected rows changes the name of a success only.
    pub by_waiting :
        (b : Bool) (x : IngestionResult) (w : World Db)
        → Waits x w
        → SettledAs F (partial_if b RunOutcome.waiting_review) x w
    by_waiting true x w h = h
    by_waiting false x w h = h

    pub by_failed :
        (b : Bool) (x : IngestionResult) (w : World Db)
        → F x w
        → SettledAs F (partial_if b RunOutcome.failed) x w
    by_failed true x w h = h
    by_failed false x w h = h

    pub by_repeat :
        (b same_unit : Bool) (x : IngestionResult) (w : World Db)
        → Repeats x w
        → SettledAs F
            (partial_if b
              (if same_unit then RunOutcome.fetch_unit_replay else RunOutcome.file_duplicate))
            x
            w
    by_repeat true true x w h = h
    by_repeat true false x w h = h
    by_repeat false true x w h = h
    by_repeat false false x w h = h

  Post-health :
      (Q : World Db → Type 0) (health : Bool) (r : Result (Unit {0})) (t : World Db)
      → Q t
      → Post (λ _ t. Q t) ((if health then lift r else pure tt) t)
  Post-health Q true (ok a) t h = h
  Post-health Q true (err e) t h = tt
  Post-health Q false r t h = h

  module _ {Config Row Container : Type 0} (p : Ports Config Row Container) where
    Claimed-attempt :
        (P : ReconciliationFile → Type 0) (ignores : IgnoresSummary P) (k t : String) (w : World Db)
        (d e : ReconciliationFile)
        → d.id ≡ k
        → At c s k d e w
        → P d
        → P e
        → Claimed P k (attempt (on_db (update_stage_summary c k t)) w).1
    unfolding update_stage_summary
    Claimed-attempt P ignores k t w d e i a own e_is =
        elim (At-attempt c s k (with_summary t) (with_summary-KeepsId t) w d e a).0 [
          | inl b ↦ record {
            own_record = d;
            document = e;
            same_id = i;
            at = b;
            own_is = own;
            document_is = e_is;
          }
          | inr b ↦ record {
            own_record = d;
            document = with_summary t e;
            same_id = i;
            at = b;
            own_is = own;
            document_is = ignores t e e_is;
          }
        ]

    with_own :
        (k : String) (f : ReconciliationFile → ReconciliationFile) (w : World Db)
        (d e : ReconciliationFile)
        → At c s k d e w
        → At c s k (f d) e (record w { file_record = change_record f w.file_record })
    with_own k f w d e a = record { own = ap (change_record f) a.own; stored = a.stored }

    pub persist-Claimed :
        (P : ReconciliationFile → Type 0) (ignores : IgnoresSummary P) (k : String) (w : World Db)
        → Claimed P k w
        → Post (λ _ t. Claimed P k t) (persist_stage_summary c p k w)
    unfolding persist_stage_summary ◌>>=◌
    persist-Claimed P ignores k w h =
        let f = with_summary (p.summary_of w.state) in
        Claimed-attempt P ignores k (p.summary_of w.state)
          (record w { file_record = change_record f w.file_record }) (f h.own_record) h.document
          (with_summary-KeepsId _ h.own_record ∙ h.same_id)
          (with_own k f w h.own_record h.document h.at)
          (ignores (p.summary_of w.state) h.own_record h.own_is) h.document_is

    pub finalize_success-Finished :
        (P : ReconciliationFile → Type 0) (health : Bool) (k : String) (w : World Db)
        → Claimed P k w
        → Post (λ _ t. Finished c s k (completed_as t.state) t) (finalize_success c p health k w)
    unfolding finalize_success
    finalize_success-Finished P health k w h =
        Post-bind (λ _ t. Finished c s k (completed_as w.state) t × (t.state ≡ w.state))
          (λ _ t. Finished c s k (completed_as t.state) t) (complete c p.summary_of k) _ w
          (complete-Finished c s p.summary_of k w h.own_record h.document h.same_id h.at)
          (λ _ t g.
            Post-health (λ t. Finished c s k (completed_as t.state) t) health
              (p.record_run_health t.state) t
              (subst (λ x. Finished c s k (completed_as x) t) (sym g.1) g.0))
