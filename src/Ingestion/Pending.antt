-- ===== src/Ingestion/Pending.antt =====
-- A file that waits for the approval of its configuration, in src/pipeline/ingestion_pipeline.py.
use reconciliation_ingestion.Prelude.{String, none, some, ◌≡◌, refl, ap, sym, subst}
use reconciliation_ingestion.Result.{◌>>◌}
use reconciliation_ingestion.RunState.State.{add_error}
use reconciliation_ingestion.RunState.Defs.{is_partial}
use reconciliation_ingestion.Ingestion.Types.{
  ProcessingStatus, ReconciliationFile, RunOutcome, IngestionResult,
}
use reconciliation_ingestion.Ingestion.Files.{
  FileCollection, update_status, with_status, with_summary,
}
use reconciliation_ingestion.Ingestion.Finalizer.{World, change_record, on_db}
use reconciliation_ingestion.Ingestion.Phases.{Ports, field_error, build_result}
use reconciliation_ingestion.Ingestion.Pipeline.{persist_stage_summary, await_approval, result}
use reconciliation_ingestion.Ingestion.Store.{IsFileStore, At, At-update}
use reconciliation_ingestion.Ingestion.Stored.{
  Settled, Claimed, IgnoresSummary, by_waiting, persist-Claimed,
}
use reconciliation_ingestion.Ingestion.Leaving.{Leaves-persist}
use reconciliation_ingestion.Ingestion.Finished.{with_status-KeepsId}
use reconciliation_ingestion.Ingestion.Exits.{Exits, Exits-bind, Exits-update, Works, Exits-of_Post}

abbrev IsPending : ReconciliationFile → Type 0
IsPending d = d.processing_status ≡ ProcessingStatus.pending

module _ (c : FileCollection) (s : IsFileStore c) {Config Row Container : Type 0}
    (p : Ports Config Row Container) (F : IngestionResult → World c.Db → Type 0) where
  open c use {Db}

  waiting :
      (k : String) (w : World Db)
      → Claimed c s IsPending k w
      → Settled c s F (build_result RunOutcome.waiting_review none w.file_record w.state) w
  unfolding build_result
  waiting k w h = by_waiting c s F (is_partial w.state) _ w (record {
    own_record = h.own_record;
    document = h.document;
    own = h.at.own;
    stored = subst (λ i. s.document w.db i ≡ some h.document) (sym h.same_id) h.at.stored;
    own_status = h.own_is;
    document_status = h.document_is;
  })

  pending_written :
      (k : String) (w : World Db) (d e : ReconciliationFile)
      → d.id ≡ k
      → At c s k d (with_status ProcessingStatus.pending e) w
      → Claimed c s IsPending k (record w {
        file_record = change_record (with_status ProcessingStatus.pending) w.file_record;
      })
  unfolding with_status
  pending_written k w d e i a = record {
    own_record = with_status ProcessingStatus.pending d;
    document = with_status ProcessingStatus.pending e;
    same_id = i;
    at = record {
      own = ap (change_record (with_status ProcessingStatus.pending)) a.own;
      stored = a.stored;
    };
    own_is = refl;
    document_is = refl;
  }

  IsPending-ignores : IgnoresSummary IsPending
  unfolding with_summary
  IsPending-ignores t d h = h

  Works-pending : (k : String) (w : World Db) → Claimed c s IsPending k w → Works c s k w
  Works-pending k w h = record {
    own_record = h.own_record;
    document = h.document;
    same_id = h.same_id;
    at = h.at;
    own_is = tt;
    document_is = tt;
  }

  -- A record that waits, with the summary of its stages.
  Settled-pending :
      (k : String) (w : World Db)
      → Claimed c s IsPending k w
      → Exits c s
          (Settled c s F)
          ((persist_stage_summary c p k >> result c p RunOutcome.waiting_review none) w)
  Settled-pending k w h =
      Exits-bind c s (λ _ t. Claimed c s IsPending k t) (Settled c s F)
        (persist_stage_summary c p k) (λ _. result c p RunOutcome.waiting_review none) w
        (Exits-of_Post c s _ (λ _ t. Works c s k t) (persist_stage_summary c p k w)
          (persist-Claimed c s p IsPending IsPending-ignores k w h)
          (Leaves-persist c s p k w (Works-pending k w h)))
        (λ _ t g. waiting k t g)

  pub Settled-await_approval :
      (k : String) (w : World Db)
      → Works c s k w
      → Exits c s (Settled c s F) (await_approval c p k w)
  unfolding await_approval update_status
  Settled-await_approval k w h =
      let pending = with_status ProcessingStatus.pending in
      Exits-bind c s (λ _ t. At c s k h.own_record (pending h.document) t × (t.state ≡ w.state))
        (Settled c s F) (on_db (c.update_one k pending)) _ w
        (Exits-of_Post c s _ (λ _ t. Works c s k t) (on_db (c.update_one k pending) w)
          (At-update c s k pending (with_status-KeepsId ProcessingStatus.pending) w h.own_record
            h.document h.at)
          (Exits-update c s k pending (with_status-KeepsId ProcessingStatus.pending) w h))
        (λ _ t g. Settled-pending k _ (
          pending_written k (record t { state = add_error (field_error "configApproval") t.state })
            h.own_record h.document h.same_id (record { own = g.0.own; stored = g.0.stored })))
