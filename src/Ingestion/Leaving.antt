-- ===== src/Ingestion/Leaving.antt =====
-- The phases of src/pipeline/ingestion_pipeline.py that work on a claimed record, and leave it stored wherever they
-- stop.
use reconciliation_ingestion.Prelude.{String, Bool, true, false, if◌then◌else◌}
use reconciliation_ingestion.Result.{Result, lift, pure, ◌>>=◌}
use reconciliation_ingestion.Ingestion.Files.{
  FileCollection, update_processing_stats, update_status, with_status, with_summary,
}
use reconciliation_ingestion.Ingestion.Finalizer.{
  World, on_db, complete, completed_as, stats_of, applied_stats,
}
use reconciliation_ingestion.Ingestion.Phases.{Ports}
use reconciliation_ingestion.Ingestion.Pipeline.{
  persist_stage_summary, run_row_phase, finalize_success,
}
use reconciliation_ingestion.Ingestion.Store.{IsFileStore}
use reconciliation_ingestion.Ingestion.Finished.{
  stats_of-KeepsId, with_status-KeepsId, with_summary-KeepsId, applied_stats-KeepsId,
}
use reconciliation_ingestion.Ingestion.Exits.{
  Exits, Exits-bind, Exits-Works, Exits-lift, Exits-update, Works, Works-move, on_record-Works,
  summary-Works,
}

module _ (c : FileCollection) (s : IsFileStore c) {Config Row Container : Type 0}
    (p : Ports Config Row Container) where
  open c use {Db}

  abbrev Leaves : {A : Type 0} → String → Result A × World Db → Type 0
  Leaves k x = Exits c s (λ _ t. Works c s k t) x

  pub Leaves-persist :
      (k : String) (w : World Db) → Works c s k w → Leaves k (persist_stage_summary c p k w)
  unfolding persist_stage_summary ◌>>=◌
  Leaves-persist k w h =
      summary-Works c s k _ _
        (on_record-Works c s k (with_summary (p.summary_of w.state)) (with_summary-KeepsId _) w h)

  Leaves-complete :
      (k : String) (w : World Db) → Works c s k w → Leaves k (complete c p.summary_of k w)
  unfolding complete update_processing_stats update_status
  Leaves-complete k w h =
      Exits-bind c s (λ _ t. Works c s k t) (λ _ t. Works c s k t)
        (on_db (c.update_one k (stats_of w.state))) _ w
        (Exits-update c s k (stats_of w.state) (stats_of-KeepsId w.state) w h)
        (λ _ t g.
          Exits-bind c s (λ _ t. Works c s k t) (λ _ t. Works c s k t)
            (on_db (c.update_one k (with_status (completed_as w.state)))) _ t
            (Exits-update c s k (with_status (completed_as w.state))
              (with_status-KeepsId (completed_as w.state)) t g)
            (λ _ u i.
              on_record-Works c s k
                (applied_stats (p.summary_of w.state) w.state (completed_as w.state))
                (applied_stats-KeepsId (p.summary_of w.state) w.state (completed_as w.state)) _
                (summary-Works c s k (p.summary_of w.state) u i)))

  Leaves-health :
      (k : String) (health : Bool) (w : World Db)
      → Works c s k w
      → Leaves k ((if health then lift (p.record_run_health w.state) else pure tt) w)
  Leaves-health k true w h = Exits-Works c s k (p.record_run_health w.state) w h
  Leaves-health k false w h = h

  pub Leaves-finalize_success :
      (health : Bool) (k : String) (w : World Db)
      → Works c s k w
      → Leaves k (finalize_success c p health k w)
  unfolding finalize_success
  Leaves-finalize_success health k w h =
      Exits-bind c s (λ _ t. Works c s k t) (λ _ t. Works c s k t) (complete c p.summary_of k) _ w
        (Leaves-complete k w h) (λ _ t g. Leaves-health k health t g)

  pub Leaves-run_row_phase :
      (k : String) (config : Config) (w : World Db)
      → Works c s k w
      → Leaves k (run_row_phase c p config w)
  unfolding run_row_phase
  Leaves-run_row_phase k config w h =
      Exits-lift c s k (λ _ t. Works c s k t) (p.read_rows config) _ w h
        (λ rows. Exits-Works c s k _ _ (Works-move c s k w _ h))
