-- ===== src/Ingestion/Settling.antt =====
-- `_process_file` of src/pipeline/ingestion_pipeline.py, phase by phase, up to what the database holds at its end.
-- `F` is what a result says as FAILED, and `fails` that a run which fails says so.
use reconciliation_ingestion.Prelude.{
  String, Bool, true, false, some, ◌≡◌, refl, inl, inr, Bool-cases, str_eq, get_or, if◌then◌else◌,
}
use reconciliation_ingestion.Result.{Result, ok, err, Returns, ◌>>=◌}
use reconciliation_ingestion.RunState.State.{add_error}
use reconciliation_ingestion.RunState.Defs.{is_partial}
use reconciliation_ingestion.Ingestion.Types.{
  ReconciliationFile, FileClaimResult, ProcessFileCommand, IngestionResult,
}
use reconciliation_ingestion.Ingestion.Files.{FileCollection}
use reconciliation_ingestion.Ingestion.Finalizer.{World, completed_as}
use reconciliation_ingestion.Ingestion.Phases.{
  Preparation, prepared, approval_required, load_error, Ports, record_gate, field_error,
  build_result, is_missing_ingestion_key_failure,
}
use reconciliation_ingestion.Ingestion.Pipeline.{
  persist_stage_summary, duplicate_result, refuse_configuration, fail_run, run_row_phase,
  finalize_success, after_rows, gate_evaluation, rows_phase, refuses, gate_phase, prepared_phase,
  process_claimed, claim_source_file, after_claim, handled, begin, process_file,
}
use reconciliation_ingestion.Ingestion.Store.{IsFileStore}
use reconciliation_ingestion.Ingestion.Stored.{
  Settled, Settled-finished, by_repeat, finalize_success-Finished,
}
use reconciliation_ingestion.Ingestion.Leaving.{
  Leaves-persist, Leaves-finalize_success, Leaves-run_row_phase,
}
use reconciliation_ingestion.Ingestion.Finished.{Finished}
use reconciliation_ingestion.Ingestion.Exits.{
  Exits, Exits-bind, Exits-lift, MayHold, Works, Works-move, Holds-Works, Exits-of_Post,
  Exits-of_Returns,
}
use reconciliation_ingestion.Ingestion.Pending.{Settled-await_approval}
use reconciliation_ingestion.Ingestion.Claiming.{Exits-claim}

module _ (c : FileCollection) (s : IsFileStore c) {Config Row Container : Type 0}
    (p : Ports Config Row Container) (F : IngestionResult → World c.Db → Type 0)
    (fails : (w : World c.Db) → MayHold c s w → Returns (Settled c s F) (fail_run c p w)) where
  open c use {Db}

  abbrev EndsWell : Result IngestionResult × World Db → Type 0
  EndsWell x = Exits c s (Settled c s F) x

  EndsWell-fail_run : (w : World Db) → MayHold c s w → EndsWell (fail_run c p w)
  EndsWell-fail_run w h = Exits-of_Returns c s (Settled c s F) (fail_run c p w) (fails w h)

  Settled-after_rows :
      (health : Bool) (k : String) (w : World Db)
      → Works c s k w
      → EndsWell (after_rows c p health k w.state w)
  unfolding after_rows
  Settled-after_rows health k w h = elim (Bool-cases (is_missing_ingestion_key_failure w.state)) [
    | inl b ↦ rw b (EndsWell-fail_run w (inr (Holds-Works c s k w h)))
    | inr b ↦ rw b (
        Exits-bind c s (λ _ t. Finished c s k (completed_as t.state) t) (Settled c s F)
          (finalize_success c p health k) _ w
          (Exits-of_Post c s _ (λ _ t. Works c s k t) (finalize_success c p health k w)
            (finalize_success-Finished c s p (λ d. Unit {0}) health k w h)
            (Leaves-finalize_success c s p health k w h))
          (λ _ t f. Settled-finished c s F k t f))
  ]

  Settled-rows_phase :
      (health : Bool) (k : String) (config : Config) (w : World Db)
      → Works c s k w
      → EndsWell (rows_phase c p health k config w)
  unfolding ◌>>=◌ after_rows
  Settled-rows_phase health k config w h =
      Exits-bind c s (λ _ t. Works c s k t) (Settled c s F) (run_row_phase c p config) _ w
        (Leaves-run_row_phase c s p k config w h) (λ _ t g. Settled-after_rows health k t g)

  Settled-decided :
      (health : Bool) (k : String) (config : Config) (b : Bool) (w : World Db)
      → Works c s k w
      → EndsWell ((if b then fail_run c p else rows_phase c p health k config) w)
  Settled-decided health k config true w h = EndsWell-fail_run w (inr (Holds-Works c s k w h))
  Settled-decided health k config false w h = Settled-rows_phase health k config w h

  Settled-gate_phase :
      (health : Bool) (k : String) (config : Config) (w : World Db)
      → Works c s k w
      → EndsWell (gate_phase c p health k config w)
  unfolding gate_phase
  Settled-gate_phase health k config w h =
      Exits-lift c s k (Settled c s F) (p.inspect config) _ w h (λ i.
        let e = gate_evaluation c p i in
        Settled-decided health k config (refuses c p e) _
          (Works-move c s k w (record_gate e w.state) h))

  Settled-prepared :
      (health : Bool) (k : String) (answer : Preparation Config) (w : World Db)
      → Works c s k w
      → EndsWell (prepared_phase c p health k answer w)
  unfolding refuse_configuration ◌>>=◌
  Settled-prepared health k (prepared config) w h = Settled-gate_phase health k config w h
  Settled-prepared health k approval_required w h = Settled-await_approval c s p F k w h
  Settled-prepared health k (load_error message vs) w h =
      inr (Holds-Works c s k _ (Works-move c s k w _ h))

  Settled-process_claimed :
      (health : Bool) (d : ReconciliationFile) (w : World Db)
      → Works c s d.id w
      → EndsWell (process_claimed c p health d w)
  unfolding process_claimed
  Settled-process_claimed health d w h =
      Exits-bind c s (λ _ t. Works c s d.id t) (Settled c s F) (persist_stage_summary c p d.id) _ w
        (Leaves-persist c s p d.id w h)
        (λ _ t g.
          Exits-lift c s d.id (Settled c s F) (p.prepare d) (prepared_phase c p health d.id) t g
            (λ answer. Settled-prepared health d.id answer t g))

  Settled-duplicate :
      (code : String) (w : World Db) (d : ReconciliationFile)
      → w.file_record ≡ some d
      → s.document w.db d.id ≡ some d
      → EndsWell (duplicate_result c p code w)
  unfolding duplicate_result build_result ◌>>=◌
  Settled-duplicate code w d o h =
      by_repeat c s F (is_partial (add_error (field_error code) w.state))
        (str_eq code "fetch_unit_duplicate") _ _ (record { own_record = d; own = o; stored = h })

  module _ (id : String) (command : ProcessFileCommand) where
    Settled-claimed :
        (b : Bool) (d : ReconciliationFile) (code : String) (w : World Db)
        → w.file_record ≡ some d
        → s.document w.db d.id ≡ some d
        → EndsWell (
            (if b
                then process_claimed c p command.enable_config_health_check d
                else duplicate_result c p code)
              w)
    Settled-claimed true d code w o h =
        Settled-process_claimed command.enable_config_health_check d w (record {
          own_record = d;
          document = d;
          same_id = refl;
          at = record { own = o; stored = h };
          own_is = tt;
          document_is = tt;
        })
    Settled-claimed false d code w o h = Settled-duplicate code w d o h

    Settled-after_claim :
        (r : FileClaimResult) (w : World Db)
        → s.document w.db r.file_record.id ≡ some r.file_record
        → EndsWell (after_claim c p id command r w)
    unfolding ◌>>=◌
    Settled-after_claim r w h =
        Settled-claimed r.created r.file_record (get_or "file_duplicate" r.duplicate_code)
          (record w { file_record = some r.file_record }) refl h

    handled-Returns :
        (x : Result IngestionResult × World Db)
        → EndsWell x
        → Returns (Settled c s F) (handled c p id command x)
    handled-Returns (ok x, w) h = h
    handled-Returns (err e, w) h = fails w h

    pub process_file-Settled : (db : Db) → Returns (Settled c s F) (process_file c p id command db)
    unfolding process_file
    process_file-Settled db =
        handled-Returns
          ((claim_source_file c p id command >>= after_claim c p id command)
            (begin c p id command db))
          (Exits-bind c s (λ r t. s.document t.db r.file_record.id ≡ some r.file_record)
            (Settled c s F) (claim_source_file c p id command) (after_claim c p id command)
            (begin c p id command db) (Exits-claim c s p id command (begin c p id command db) refl)
            (λ r t h. Settled-after_claim r t h))
