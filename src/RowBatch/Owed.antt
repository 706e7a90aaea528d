-- ===== src/RowBatch/Owed.antt =====
-- The rows that are on their way while src/pipeline/row_batch_coordinator.py runs, operation by operation.
use reconciliation_ingestion.RowBatch.Carried.{
  At-flush_entries, At-record_batch_result, At, At-hold_entry, At-eq, Held,
}
use reconciliation_ingestion.Prelude.{
  ℕ, ◌+◌, List, [], ◌∷◌, ◌++◌, Option, some, length, ltb, leb, ◌==◌, ◌≡◌, refl, sym, ap, ◌∙◌, arith,
  length-append, Bool-cases, inl, inr,
}
use reconciliation_ingestion.Result.{pure, Post, Post-bind, Post-of_IsOk, Post-weaken, ◌>>=◌}
use reconciliation_ingestion.Duplicates.{BatchWriteResult, RowContext}
use reconciliation_ingestion.RunState.State.{RowOutcome}
use reconciliation_ingestion.RunState.Defs.{record_batch_result}
use reconciliation_ingestion.RowBatch.Writer.{Write, gather}
use reconciliation_ingestion.RowBatch.Answers.{answered, queued, queued-append, answered-gather}
use reconciliation_ingestion.RowBatch.Coordinator.{
  Collaborators, Run, Buffers, drain, submit, quarantine_conflicts, record_results, flush_batch,
  hold_row, keep_row, conflict_entries,
}

module _ {Row Container : Type 0} (c : Collaborators Row Container) where
  pub At-record_results :
      (p : List (Write Row Container)) (n k : ℕ) (rs : List (BatchWriteResult Row))
      (r : Run Row Container)
      → At p n (answered rs + k) r
      → Post (λ _ t. At p n k t) (record_results c rs r)
  unfolding record_results answered quarantine_conflicts
  At-record_results p n k [] r h = At-eq p n _ k r h (omega arith)
  At-record_results p n k (q ∷ rs) r h =
      let j = answered rs + k in
      let r' : Run Row Container = record r { state = record_batch_result q r.state } in
      Post-bind (λ _ t. At p n j t) (λ _ t. At p n k t) (quarantine_conflicts c q)
        (λ _. record_results c rs) r'
        (At-flush_entries p n j c.create_many (conflict_entries c q.duplicate_details) r'
          (At-record_batch_result p n j q r (At-eq p n _ _ r h (omega arith))))
        (λ _ t g. At-record_results p n k rs t g)

  -- The answers to the tasks `ws`, where the rows of `ws` were on their way.
  At-gather :
      (p ws : List (Write Row Container)) (n k : ℕ) (r : Run Row Container)
      → At p n (queued ws + k) r
      → Post (λ rs t. At p n (answered rs + k) t) (gather c.insert_many ws, r)
  At-gather p ws n k r h =
      Post-of_IsOk (λ rs. answered rs ≡ queued ws) (λ rs t. At p n (answered rs + k) t)
        (gather c.insert_many ws) r (answered-gather c.insert_many ws)
        (λ rs e. At-eq p n _ _ r h (ap (λ x. x + k) (sym e)))

  -- The queue is emptied, whatever it was.
  forget : Run Row Container → Run Row Container
  forget r = record r { pending = [] }

  At-forget :
      {p : List (Write Row Container)} (n k : ℕ) (r : Run Row Container)
      → At p n k r
      → At [] n k (forget r)
  unfolding forget
  At-forget n k r h = record {
    queue = refl;
    read = h.read;
    every_row = h.every_row;
    failures = h.failures;
  }

  -- What is owed: the rows of the tasks in the queue, and `k` others.
  abbrev pub Owes : ℕ → ℕ → Run Row Container → Type 0
  Owes n k r = At r.pending n (queued r.pending + k) r

  pub At-drain :
      (n k : ℕ) (r : Run Row Container)
      → Owes n k r
      → Post (λ rs t. At [] n (answered rs + k) t) (drain c r)
  unfolding drain ◌>>=◌ forget
  At-drain n k r h = At-gather [] r.pending n k (forget r) (At-forget n (queued r.pending + k) r h)

  -- `k` rows on their way, the rows of the queue among them.
  Owes-of_At :
      {p : List (Write Row Container)} (n k : ℕ) (r : Run Row Container)
      → At p n (queued p + k) r
      → Owes n k r
  Owes-of_At {p} n k r h = record {
    queue = refl;
    read = h.read;
    every_row =
        h.every_row
        ∙ ap
            (λ q.
              r.state.success_rows + r.state.duplicate_rows + r.state.failed_rows + (queued q + k))
            (sym h.queue);
    failures = h.failures;
  }

  abbrev task :
      List (Option Container) → List (RowContext Row) → Run Row Container → Write Row Container
  task batch contexts r = record { number = r.db_write_count; batch = batch; contexts = contexts }

  abbrev enqueue :
      List (Option Container) → List (RowContext Row) → Run Row Container → Run Row Container
  enqueue batch contexts r = record r { pending = r.pending ++ (task batch contexts r ∷ []) }

  Owes-enqueue :
      (n k : ℕ) (batch : List (Option Container)) (contexts : List (RowContext Row))
      (r : Run Row Container)
      → Owes n (length batch + k) r
      → Owes n k (enqueue batch contexts r)
  Owes-enqueue n k batch contexts r h = record {
    queue = refl;
    read = h.read;
    every_row = omega (arith, h.every_row, queued-append r.pending (task batch contexts r));
    failures = h.failures;
  }

  Owes-gather :
      (ws : List (Write Row Container)) (n k : ℕ) (r : Run Row Container)
      → Owes n (queued ws + k) r
      → Post (λ rs t. Owes n (answered rs + k) t) (gather c.insert_many ws, r)
  Owes-gather ws n k r h =
      Post-of_IsOk (λ rs. answered rs ≡ queued ws) (λ rs t. Owes n (answered rs + k) t)
        (gather c.insert_many ws) r (answered-gather c.insert_many ws)
        (λ rs e. At-eq r.pending n _ _ r h (ap (λ x. queued r.pending + (x + k)) (sym e)))

  Owes-of_empty : (n k : ℕ) (r : Run Row Container) → At [] n k r → Owes n k r
  unfolding queued
  Owes-of_empty n k r h = Owes-of_At n k r (At-eq [] n k _ r h (omega arith))

  Owes-submit :
      (n k : ℕ) (batch : List (Option Container)) (contexts : List (RowContext Row))
      (r : Run Row Container)
      → Owes n (length batch + k) r
      → Post (λ rs t. Owes n (answered rs + k) t) (submit c batch contexts r)
  unfolding submit queued answered
  Owes-submit n k batch contexts r h = elim (Bool-cases (c.workers == 1)) [
    | inl one ↦
        rw one
          (Owes-gather (task batch contexts r ∷ []) n k r (At-eq r.pending n _ _ r h (omega arith)))
    | inr many ↦
        rw many (elim (Bool-cases (ltb (length (enqueue batch contexts r).pending) c.workers)) [
          | inl room ↦ rw room (
              At-eq _ n _ _ (enqueue batch contexts r) (Owes-enqueue n k batch contexts r h)
                (omega arith))
          | inr full ↦ rw full (
              Post-weaken (λ rs t. At [] n (answered rs + k) t) (λ rs t. Owes n (answered rs + k) t)
                (drain c (enqueue batch contexts r))
                (At-drain n k (enqueue batch contexts r) (Owes-enqueue n k batch contexts r h))
                (λ rs t g. Owes-of_empty n (answered rs + k) t g))
        ])
  ]

  Owes-record_results :
      (n k : ℕ) (rs : List (BatchWriteResult Row)) (r : Run Row Container)
      → Owes n (answered rs + k) r
      → Post (λ _ t. Owes n k t) (record_results c rs r)
  Owes-record_results n k rs r h =
      Post-weaken (λ _ t. At r.pending n (queued r.pending + k) t) (λ _ t. Owes n k t)
        (record_results c rs r)
        (At-record_results r.pending n (queued r.pending + k) rs r
          (At-eq r.pending n _ _ r h (omega arith)))
        (λ _ t g. Owes-of_At n k t g)

  -- The count of batches is not a row counter.
  counted : Run Row Container → Run Row Container
  counted r = record r { db_write_count = r.db_write_count + 1 }

  Owes-counted : (n k : ℕ) (r : Run Row Container) → Owes n k r → Owes n k (counted r)
  unfolding counted
  Owes-counted n k r h = record {
    queue = refl;
    read = h.read;
    every_row = h.every_row;
    failures = h.failures;
  }

  pub Owes-flush_batch :
      (n k : ℕ) (batch : List (Option Container)) (contexts : List (RowContext Row))
      (r : Run Row Container)
      → Owes n (length batch + k) r
      → Post (λ _ t. Owes n k t) (flush_batch c batch contexts r)
  unfolding flush_batch ◌>>=◌ counted
  Owes-flush_batch n k batch contexts r h =
      Post-bind (λ rs t. Owes n (answered rs + k) t) (λ _ t. Owes n k t) (submit c batch contexts)
        (λ rs t. record_results c rs (counted t)) r (Owes-submit n k batch contexts r h)
        (λ rs t g. Owes-record_results n k rs (counted t) (Owes-counted n (answered rs + k) t g))

  -- The rows of the buffer are owed.
  abbrev pub Carries : ℕ → Buffers Row Container → Run Row Container → Type 0
  Carries n b r = Owes n (length b.rows) r

  pub Carries-keep_row :
      (n row_number : ℕ) (row : Row) (o : RowOutcome Container) (b : Buffers Row Container)
      (r : Run Row Container)
      → Owes n (length b.rows + 1) r
      → Post (Carries n) (keep_row c row_number row o b r)
  unfolding keep_row
  Carries-keep_row n row_number row o b r h =
      let rows = b.rows ++ (o.data_container ∷ []) in
      let contexts =
        b.contexts ++ (record { row_number = some row_number; raw_row = some row } ∷ []) in
      let h' : Owes n (length rows + 0) r =
        At-eq r.pending n _ _ r h
          (omega (arith, length-append {0} b.rows (o.data_container ∷ []))) in
      elim (Bool-cases (leb c.batch_size (length rows))) [
        | inl full ↦ rw full (
            Post-bind (λ _ t. Owes n 0 t) (Carries n) (flush_batch c rows contexts)
              (λ _. pure (record b { rows = []; contexts = [] })) r
              (Owes-flush_batch n 0 rows contexts r h') (λ _ t g. g))
        | inr room ↦ rw room (At-eq r.pending n _ _ r h' (omega arith))
      ]

  pub Carries-hold_row :
      (n row_number : ℕ) (o : RowOutcome Container) (b : Buffers Row Container)
      (r : Run Row Container)
      → Carries n b r
      → Post (Carries n) (hold_row c row_number o b r)
  unfolding hold_row
  Carries-hold_row n row_number o b r h =
      Post-weaken (Held r.pending n (queued r.pending + length b.rows) b) (Carries n)
        (hold_row c row_number o b r)
        (At-hold_entry r.pending n (queued r.pending + length b.rows) c.create_many c.batch_size _ b
          r h)
        (λ b' t g. rw g.1 (Owes-of_At n (length b.rows) t g.0))
