-- ===== src/RowBatch/Accounting.antt =====
-- Every row that the coordinator of src/pipeline/row_batch_coordinator.py reads is accounted for.
use reconciliation_ingestion.Prelude.{
  ℕ, ◌+◌, ◌-◌, true, false, List, [], ◌∷◌, Option, length, ◌≡◌, refl, arith, Bool-cases, inl, inr,
  subst,
}
use reconciliation_ingestion.Result.{ok, Exec, Post, Post-bind, Post-lift, Post-weaken, ◌>>◌, ◌>>=◌}
use reconciliation_ingestion.Quality.Types.{is_valid}
use reconciliation_ingestion.RunState.State.{RowOutcome, fresh, record_row}
use reconciliation_ingestion.RunState.Defs.{record_row_outcome, should_log_row_error}
use reconciliation_ingestion.RunState.Accounting.{
  row_counts-record_row_outcome, row_counts-should_log_row_error,
}
use reconciliation_ingestion.RowBatch.Answers.{answered, queued}
use reconciliation_ingestion.RowBatch.Coordinator.{
  Collaborators, Run, Buffers, drain, flush_entries, record_results, hold_row, place_row,
  process_row, process_rows, flush_rows, run,
}
use reconciliation_ingestion.RowBatch.Carried.{At, At-eq, At-flush_entries}
use reconciliation_ingestion.RowBatch.Owed.{
  Owes, Carries, At-drain, At-record_results, Owes-flush_batch, Carries-keep_row, Carries-hold_row,
}

module _ {Row Container : Type 0} (c : Collaborators Row Container) where
  began : Run Row Container → Run Row Container
  began r = record r { state = record_row r.state }

  Owes-began : (n k : ℕ) (r : Run Row Container) → Owes c n k r → Owes c (n + 1) (k + 1) (began r)
  unfolding began record_row
  Owes-began n k r h = record {
    queue = refl;
    read = omega (arith, h.read);
    every_row = omega (arith, h.every_row);
    failures = h.failures;
  }

  noted : RowOutcome Container → Run Row Container → Run Row Container
  noted o r = record r { state = record_row_outcome o r.state }

  Owes-noted_valid :
      (n k : ℕ) (o : RowOutcome Container) (r : Run Row Container)
      → is_valid o.outcome ≡ true
      → Owes c n k r
      → Owes c n k (noted o r)
  unfolding noted
  Owes-noted_valid n k o r v h = ground (arith, row_counts-record_row_outcome o r.state)

  Owes-noted_invalid :
      (n k : ℕ) (o : RowOutcome Container) (r : Run Row Container)
      → is_valid o.outcome ≡ false
      → Owes c n (k + 1) r
      → Owes c n k (noted o r)
  unfolding noted
  Owes-noted_invalid n k o r v h = ground (arith, row_counts-record_row_outcome o r.state)

  Owes-logged :
      (n k : ℕ) (r : Run Row Container)
      → Owes c n k r
      → Owes c n k (record r { state = (should_log_row_error r.state).0 })
  Owes-logged n k r h = ground (arith, row_counts-should_log_row_error r.state)

  -- A row that is placed is in the batch buffer, in a batch, or counted as rejected.
  Carries-place_row :
      (n row_number : ℕ) (row : Row) (o : RowOutcome Container) (b : Buffers Row Container)
      (r : Run Row Container)
      → Owes c n (length b.rows + 1) r
      → Post (Carries c n) (place_row c row_number row o b (noted o r))
  unfolding place_row ◌>>=◌
  Carries-place_row n row_number row o b r h = elim (Bool-cases (is_valid o.outcome)) [
    | inl v ↦ rw v (
        Carries-keep_row c n row_number row o b (noted o r)
          (Owes-noted_valid n (length b.rows + 1) o r v h))
    | inr v ↦ rw v (
        Post-bind (Carries c n) (Carries c n) (hold_row c row_number o b)
          (λ b' t. (ok b', record t { state = (should_log_row_error t.state).0 })) (noted o r)
          (Carries-hold_row c n row_number o b (noted o r)
            (Owes-noted_invalid n (length b.rows) o r v h))
          (λ b' t g. Owes-logged n (length b'.rows) t g))
  ]

  Carries-process_row :
      (n : ℕ) (row : Row) (b : Buffers Row Container) (r : Run Row Container)
      → Carries c n b r
      → Post (Carries c (n + 1)) (process_row c row b r)
  unfolding process_row ◌>>=◌ began noted
  Carries-process_row n row b r h =
      let number = c.start_row + (began r).state.total_rows - 1 in
      Post-lift (Carries c (n + 1)) (c.process row number)
        (λ o s. place_row c number row o b (noted o s)) (began r)
        (λ o _.
          Carries-place_row (n + 1) number row o b (began r) (Owes-began n (length b.rows) r h))

  Carries-process_rows :
      (n : ℕ) (rows : List Row) (b : Buffers Row Container) (r : Run Row Container)
      → Carries c n b r
      → Post (Carries c (n + length rows)) (process_rows c rows b r)
  unfolding process_rows ◌>>=◌
  Carries-process_rows n [] b r h = subst (λ m. Carries c m b r) (omega arith) h
  Carries-process_rows n (row ∷ rows) b r h =
      Post-bind (Carries c (n + 1)) (Carries c (n + length (row ∷ rows))) (process_row c row b)
        (process_rows c rows) r (Carries-process_row n row b r h)
        (λ b' t g.
          subst (λ m. Post (Carries c m) (process_rows c rows b' t)) (omega arith)
            (Carries-process_rows (n + 1) rows b' t g))

  -- All of `n` rows are accounted for, and no write is left in the queue.
  pub record Settled (n : ℕ) (r : Run Row Container) : Type 0 where
    pub queue : r.pending ≡ []
    pub read : r.state.total_rows ≡ n
    pub every_row : n ≡ r.state.success_rows + r.state.duplicate_rows + r.state.failed_rows
    pub failures : r.state.failed_rows ≡ r.state.rejected_rows + r.state.persistence_failed_rows

  Settled-of_At : (n : ℕ) (r : Run Row Container) → At [] n 0 r → Settled n r
  Settled-of_At n r h = record {
    queue = h.queue;
    read = h.read;
    every_row = omega (arith, h.every_row);
    failures = h.failures;
  }

  Owes-flush_rows :
      (n : ℕ) (b : Buffers Row Container) (r : Run Row Container)
      → Carries c n b r
      → Post (λ _ t. Owes c n 0 t) (flush_rows c b.rows b.contexts r)
  Owes-flush_rows n b r h = go b.rows h
    where
      go :
          (rows : List (Option Container))
          → Owes c n (length rows) r
          → Post (λ _ t. Owes c n 0 t) (flush_rows c rows b.contexts r)
      go [] h = h
      go (x ∷ xs) h =
          Owes-flush_batch c n 0 (x ∷ xs) b.contexts r (At-eq r.pending n _ _ r h (omega arith))

  -- The tail of `run`, after its row loop.
  finish : Buffers Row Container → Exec (Run Row Container) (Unit {0})
  finish b =
      flush_rows c b.rows b.contexts
      >> (drain c >>= λ results.
          record_results c results >> flush_entries c.create_many b.quarantine)

  Settled-finish :
      (n : ℕ) (b : Buffers Row Container) (r : Run Row Container)
      → Carries c n b r
      → Post (λ _ t. Settled n t) (finish b r)
  unfolding finish
  Settled-finish n b r h =
      Post-bind (λ _ t. Owes c n 0 t) (λ _ t. Settled n t) (flush_rows c b.rows b.contexts)
        (λ _. drain c >>= λ results.
          record_results c results >> flush_entries c.create_many b.quarantine)
        r (Owes-flush_rows n b r h)
        λ _ t g.
          Post-bind (λ rs u. At [] n (answered rs + 0) u) (λ _ u. Settled n u) (drain c)
            (λ results. record_results c results >> flush_entries c.create_many b.quarantine) t
            (At-drain c n 0 t g)
            λ rs u g.
              Post-bind (λ _ v. At [] n 0 v) (λ _ v. Settled n v) (record_results c rs)
                (λ _. flush_entries c.create_many b.quarantine) u
                (At-record_results c [] n 0 rs u g)
                λ _ v g.
                  Post-weaken (λ _ w. At [] n 0 w) (λ _ w. Settled n w)
                    (flush_entries c.create_many b.quarantine v)
                    (At-flush_entries [] n 0 c.create_many b.quarantine v g)
                    (λ _ w g. Settled-of_At n w g)

  abbrev pub start : Run Row Container
  start = record { state = fresh; pending = []; db_write_count = 0 }

  Carries-start : Carries c 0 (record { quarantine = []; rows = []; contexts = [] }) start
  unfolding queued
  Carries-start = record {
    queue = refl;
    read = refl;
    every_row = omega arith;
    failures = omega arith;
  }

  -- Whenever `run` of the coordinator returns, on any rows and with any collaborators, it has counted every
  -- row that it read as persisted, as a duplicate or as failed, every failed row is counted either as rejected
  -- or as refused by the persistence, and no batch is left unwritten.
  pub run_accounts : (rows : List Row) → Post (λ _ t. Settled (length rows) t) (run c rows start)
  unfolding run finish
  run_accounts rows =
      Post-bind (Carries c (length rows)) (λ _ t. Settled (length rows) t)
        (process_rows c rows (record { quarantine = []; rows = []; contexts = [] })) finish start
        (subst
          (λ m.
            Post (Carries c m)
              (process_rows c rows (record { quarantine = []; rows = []; contexts = [] }) start))
          (omega arith)
          (Carries-process_rows 0 rows (record { quarantine = []; rows = []; contexts = [] }) start
            Carries-start))
        (λ b t g. Settled-finish (length rows) b t g)
