-- ===== src/Ingestion/Finished.antt =====
-- The end of a run of src/pipeline/finalizer.py against the stored record.
use reconciliation_ingestion.Prelude.{ℕ, String, Bool, ◌≡◌, refl, ap, ◌∙◌, sym, subst, inl, inr}
use reconciliation_ingestion.Result.{Exec, Post, Post-bind, ◌>>=◌, ◌>>◌}
use reconciliation_ingestion.RunState.State.{IngestionRunState}
use reconciliation_ingestion.Ingestion.Types.{ProcessingStatus, ReconciliationFile}
use reconciliation_ingestion.Ingestion.Files.{
  FileCollection, update_processing_stats, update_status, update_stage_summary, with_stats,
  with_status, with_summary,
}
use reconciliation_ingestion.Ingestion.Finalizer.{
  World, change_record, on_db, on_record, attempt, complete, completed_as, stats_of, applied_stats,
}
use reconciliation_ingestion.Ingestion.Store.{IsFileStore, KeepsId, At, At-update, At-attempt}

with_stats-KeepsId : (a b c d : ℕ) → KeepsId (with_stats a b c d)
unfolding with_stats
with_stats-KeepsId a b c d x = refl

pub stats_of-KeepsId : (s : IngestionRunState) → KeepsId (stats_of s)
stats_of-KeepsId s = with_stats-KeepsId s.total_rows s.success_rows s.failed_rows s.duplicate_rows

pub with_status-KeepsId : (st : ProcessingStatus) → KeepsId (with_status st)
unfolding with_status
with_status-KeepsId st x = refl

pub with_summary-KeepsId : (t : String) → KeepsId (with_summary t)
unfolding with_summary
with_summary-KeepsId t x = refl

-- A record with the status and the counts of a run.
pub record IsDone (st : ProcessingStatus) (s : IngestionRunState) (d : ReconciliationFile)
    : Type 0 where
  pub status : d.processing_status ≡ st
  pub total : d.total_rows ≡ s.total_rows
  pub success : d.success_rows ≡ s.success_rows
  pub failed : d.failed_rows ≡ s.failed_rows
  pub duplicate : d.duplicate_rows ≡ s.duplicate_rows

pub written : ProcessingStatus → IngestionRunState → ReconciliationFile → ReconciliationFile
written st s e = with_status st (stats_of s e)

pub written-IsDone :
    (st : ProcessingStatus) (s : IngestionRunState) (e : ReconciliationFile)
    → IsDone st s (written st s e)
unfolding written with_status with_stats
written-IsDone st s e = record {
  status = refl;
  total = refl;
  success = refl;
  failed = refl;
  duplicate = refl;
}

pub with_summary-IsDone :
    (st : ProcessingStatus) (s : IngestionRunState) (t : String) (e : ReconciliationFile)
    → IsDone st s e
    → IsDone st s (with_summary t e)
unfolding with_summary
with_summary-IsDone st s t e h = record {
  status = h.status;
  total = h.total;
  success = h.success;
  failed = h.failed;
  duplicate = h.duplicate;
}

applied_stats-IsDone :
    (st : ProcessingStatus) (s : IngestionRunState) (t : String) (d : ReconciliationFile)
    → IsDone st s (applied_stats t s st d)
unfolding applied_stats
applied_stats-IsDone st s t d = record {
  status = refl;
  total = refl;
  success = refl;
  failed = refl;
  duplicate = refl;
}

pub applied_stats-KeepsId :
    (t : String) (s : IngestionRunState) (st : ProcessingStatus) → KeepsId (applied_stats t s st)
unfolding applied_stats
applied_stats-KeepsId t s st d = refl

module _ (c : FileCollection) (s : IsFileStore c) where
  open c use {Db}

  -- The run's record and its document are done alike.
  pub record Finished (k : String) (st : ProcessingStatus) (w : World Db) : Type 0 where
    pub own_record : ReconciliationFile
    pub document : ReconciliationFile
    pub same_id : own_record.id ≡ k
    pub at : At c s k own_record document w
    pub own_done : IsDone st w.state own_record
    pub document_done : IsDone st w.state document

  module _ (summary_of : IngestionRunState → String) (k : String) (st : ProcessingStatus) where
    -- The run's record is written like its document.
    pub finish_record :
        (r : IngestionRunState) (w : World Db) (d e : ReconciliationFile)
        → d.id ≡ k
        → At c s k d e w
        → w.state ≡ r
        → IsDone st r e
        → Finished k st (record w {
          file_record = change_record (applied_stats (summary_of r) r st) w.file_record;
        })
    finish_record r w d e i a q h = record {
      own_record = applied_stats (summary_of r) r st d;
      document = e;
      same_id = applied_stats-KeepsId (summary_of r) r st d ∙ i;
      at = record {
        own = ap (change_record (applied_stats (summary_of r) r st)) a.own;
        stored = a.stored;
      };
      own_done =
          subst (λ x. IsDone st x (applied_stats (summary_of r) r st d)) (sym q)
            (applied_stats-IsDone st r (summary_of r) d);
      document_done = subst (λ x. IsDone st x e) (sym q) h;
    }

    -- The last writes of `complete`: the summary's may not come through.
    finish :
        (r : IngestionRunState) (w : World Db) (d e : ReconciliationFile)
        → d.id ≡ k
        → At c s k d e w
        → w.state ≡ r
        → IsDone st r e
        → Post
            (λ _ t. Finished k st t × (t.state ≡ r))
            ((attempt (on_db (update_stage_summary c k (summary_of r)))
                >> on_record (applied_stats (summary_of r) r st))
              w)
    unfolding ◌>>=◌ update_stage_summary
    finish r w d e i a q h =
        let kept =
          (At-attempt c s k (with_summary (summary_of r)) (with_summary-KeepsId _) w d e a).0 in
        (
          elim kept [
            | inl b ↦ finish_record r _ d e i b q h
            | inr b ↦
                finish_record r _ d (with_summary (summary_of r) e) i b q
                  (with_summary-IsDone st r (summary_of r) e h)
          ],
          q,
        )

    -- The two writes that decide, one after the other.
    pub written_both :
        {A : Type 0} (Q : A → World Db → Type 0) (r : IngestionRunState) (w : World Db)
        (d e : ReconciliationFile) (f : Bool → Bool → Exec (World Db) A)
        → At c s k d e w
        → w.state ≡ r
        → ((a b : Bool) (t : World Db)
            → At c s k d (written st r e) t
            → t.state ≡ r
            → Post Q (f a b t))
        → Post Q (
            (on_db (
                  update_processing_stats c k r.total_rows r.success_rows r.failed_rows
                    r.duplicate_rows)
                >>= λ a. on_db (update_status c k st) >>= λ b. f a b)
              w)
    unfolding update_processing_stats update_status written
    written_both Q r w d e f a q next =
        Post-bind (λ _ t. At c s k d (stats_of r e) t × (t.state ≡ w.state)) Q
          (on_db (c.update_one k (stats_of r))) _ w
          (At-update c s k (stats_of r) (stats_of-KeepsId r) w d e a)
          (λ x t h.
            Post-bind (λ _ u. At c s k d (written st r e) u × (u.state ≡ t.state)) Q
              (on_db (c.update_one k (with_status st))) (f x) t
              (At-update c s k (with_status st) (with_status-KeepsId st) t d (stats_of r e) h.0)
              (λ y u g. next x y u g.0 (g.1 ∙ (h.1 ∙ q))))

  -- A `complete` that comes through leaves the record and its document with the status and the counts of the run.
  pub complete-Finished :
      (summary_of : IngestionRunState → String) (k : String) (w : World Db)
      (d e : ReconciliationFile)
      → d.id ≡ k
      → At c s k d e w
      → Post
          (λ _ t. Finished k (completed_as w.state) t × (t.state ≡ w.state))
          (complete c summary_of k w)
  unfolding complete
  complete-Finished summary_of k w d e i a =
      let st = completed_as w.state in
      written_both summary_of k st (λ _ t. Finished k st t × (t.state ≡ w.state)) w.state w d e _ a
        refl
        (λ x y t b q.
          finish summary_of k st w.state t d (written st w.state e) i b q
            (written-IsDone st w.state e))
