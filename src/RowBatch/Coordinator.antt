-- ===== src/RowBatch/Coordinator.antt =====
-- `RowBatchCoordinator` of src/pipeline/row_batch_coordinator.py. Timings, log lines and stage events are
-- observability and are left out; the raw row of a quarantine record, which is masked before it is
-- stored, is left out too. The row processor and the two repositories are the coordinator's own
-- collaborators, given to it as they are to its constructor.
use reconciliation_ingestion.Prelude.{
  ℕ, ◌+◌, ◌-◌, List, [], ◌∷◌, ◌++◌, map, Option, none, some, length, ltb, leb, ◌==◌, if◌then◌else◌,
}
use reconciliation_ingestion.Result.{Result, ok, Exec, pure, lift, gets, modify, ◌>>=◌, ◌>>◌}
use reconciliation_ingestion.Quality.Types.{
  code_value, conflicting_duplicate, is_valid, is_conflicting_code,
}
use reconciliation_ingestion.Duplicates.{BatchWriteResult, DuplicateDetail, RowContext}
use reconciliation_ingestion.RunState.State.{
  IngestionRunState, RowOutcome, record_row, serialize_quality_violation,
}
use reconciliation_ingestion.RunState.Defs.{
  record_row_outcome, record_batch_result, record_quarantined, should_log_row_error,
}
use reconciliation_ingestion.RowBatch.Records.{QuarantinePhase, QuarantineEntry, RowBatchContext}
use reconciliation_ingestion.RowBatch.Writer.{Write, gather}

-- The collaborators of the coordinator and of its batch writer.
pub record Collaborators (Row Container : Type 0) : Type 0 where
  pub process : Row → ℕ → Result (RowOutcome Container)
  pub insert_many : ℕ → List (Option Container) → Result (BatchWriteResult Row)
  pub create_many : Option (List QuarantineEntry → Result ℕ)
  pub workers : ℕ
  pub batch_size : ℕ
  pub start_row : ℕ
  pub context : RowBatchContext

-- The objects that the coordinator mutates: the run state, the writer's pending tasks and the number of
-- batches submitted.
pub record Run (Row Container : Type 0) : Type 0 where
  pub state : IngestionRunState
  pub pending : List (Write Row Container)
  pub db_write_count : ℕ

-- The local buffers of `run`.
pub record Buffers (Row Container : Type 0) : Type 0 where
  pub quarantine : List QuarantineEntry
  pub rows : List (Option Container)
  pub contexts : List (RowContext Row)

abbrev on_state :
    {Row Container : Type 0}
    → (IngestionRunState → IngestionRunState)
    → Exec (Run Row Container) (Unit {0})
on_state f = modify (λ r. record r { state = f r.state })

unfoldable pub flush_quarantine_records :
    {Row Container : Type 0}
    → Option (List QuarantineEntry → Result ℕ)
    → List QuarantineEntry
    → Exec (Run Row Container) (Unit {0})
unfolding ◌>>=◌
flush_quarantine_records none records = pure tt
flush_quarantine_records (some create) records =
    lift (create records) >>= λ persisted. on_state (record_quarantined persisted)

-- `if records:` before a flush.
unfoldable pub flush_entries :
    {Row Container : Type 0}
    → Option (List QuarantineEntry → Result ℕ)
    → List QuarantineEntry
    → Exec (Run Row Container) (Unit {0})
unfolding flush_quarantine_records
flush_entries repository [] = pure tt
flush_entries repository (e ∷ es) = flush_quarantine_records repository (e ∷ es)

-- The quarantine buffer of `run` after a row that is held: flushed when it is full.
unfoldable pub hold_entry :
    {Row Container : Type 0}
    → Option (List QuarantineEntry → Result ℕ)
    → ℕ
    → QuarantineEntry
    → Buffers Row Container
    → Exec (Run Row Container) (Buffers Row Container)
unfolding ◌>>=◌ flush_quarantine_records
hold_entry none batch_size e b = pure b
hold_entry (some create) batch_size e b =
    let held = b.quarantine ++ (e ∷ []) in
    if leb batch_size (length held)
    then (flush_quarantine_records (some create) held >> pure (record b { quarantine = [] }))
    else pure (record b { quarantine = held })

module _ {Row Container : Type 0} (c : Collaborators Row Container) where
  open c use {process, insert_many, create_many, workers, batch_size, start_row, context}

  abbrev M : Type 0 → Type 0
  M A = Exec (Run Row Container) A

  -- `drain`
  unfoldable pub drain : M (List (BatchWriteResult Row))
  unfolding ◌>>=◌
  drain = do
    tasks ← gets (λ r. r.pending)
    modify (λ r. record r { pending = [] })
    lift (gather insert_many tasks)

  -- `submit` of a batch that is not empty.
  unfoldable pub submit :
      List (Option Container) → List (RowContext Row) → M (List (BatchWriteResult Row))
  unfolding ◌>>=◌ drain
  submit batch contexts r =
      let task : Write Row Container = record {
        number = r.db_write_count;
        batch = batch;
        contexts = contexts;
      } in
      let queued = record r { pending = r.pending ++ (task ∷ []) } in
      let drained = drain queued in
      if workers == 1
      then (gather insert_many (task ∷ []), r)
      else if ltb (length queued.pending) workers
      then (ok [], queued)
      else drained

  unfoldable conflict_entry : DuplicateDetail Row → QuarantineEntry
  conflict_entry d = record {
    context = context;
    row_number = d.row_context.row_number;
    ingestion_key = some d.ingestion_key;
    errors =
        record {
          field = some "ingestion_key";
          error_code = some (code_value conflicting_duplicate);
        }
        ∷ [];
    phase = QuarantinePhase.batch;
    incoming_fingerprint = some d.incoming_fingerprint;
    existing_fingerprint = some d.existing_fingerprint;
  }

  -- The loop of `_quarantine_conflicts`: an entry for each conflict, in order.
  unfoldable pub conflict_entries : List (DuplicateDetail Row) → List QuarantineEntry
  unfolding conflict_entry
  conflict_entries [] = []
  conflict_entries (d ∷ ds) =
      let rest = conflict_entries ds in
      if is_conflicting_code d.duplicate_type then conflict_entry d ∷ rest else rest

  -- `_quarantine_conflicts`; without a repository nothing is stored.
  unfoldable pub quarantine_conflicts : BatchWriteResult Row → M (Unit {0})
  unfolding conflict_entries flush_entries
  quarantine_conflicts result =
      flush_entries create_many (conflict_entries result.duplicate_details)

  -- for result in results: record it, and quarantine its conflicts
  unfoldable pub record_results : List (BatchWriteResult Row) → M (Unit {0})
  unfolding ◌>>=◌ quarantine_conflicts
  record_results [] = pure tt
  record_results (r ∷ rs) = do
    on_state (record_batch_result r)
    quarantine_conflicts r
    record_results rs

  -- `_flush_batch`
  unfoldable pub flush_batch : List (Option Container) → List (RowContext Row) → M (Unit {0})
  unfolding ◌>>=◌ submit record_results
  flush_batch batch contexts = do
    results ← submit batch contexts
    modify (λ r. record r { db_write_count = r.db_write_count + 1 })
    record_results results

  unfoldable quarantine_entry : ℕ → RowOutcome Container → QuarantineEntry
  quarantine_entry row_number outcome = record {
    context = context;
    row_number = some row_number;
    ingestion_key = none;
    errors = map serialize_quality_violation outcome.violations;
    phase = QuarantinePhase.validation;
    incoming_fingerprint = none;
    existing_fingerprint = none;
  }

  -- The branch of `run` for a row that is not valid.
  unfoldable pub hold_row :
      ℕ → RowOutcome Container → Buffers Row Container → M (Buffers Row Container)
  unfolding hold_entry quarantine_entry
  hold_row row_number outcome b =
      hold_entry create_many batch_size (quarantine_entry row_number outcome) b

  -- The branch of `run` for a valid row.
  unfoldable pub keep_row :
      ℕ → Row → RowOutcome Container → Buffers Row Container → M (Buffers Row Container)
  unfolding ◌>>=◌ flush_batch
  keep_row row_number row outcome b =
      let rows = b.rows ++ (outcome.data_container ∷ []) in
      let contexts =
        b.contexts ++ (record { row_number = some row_number; raw_row = some row } ∷ []) in
      if leb batch_size (length rows)
      then (flush_batch rows contexts >> pure (record b { rows = []; contexts = [] }))
      else pure (record b { rows = rows; contexts = contexts })

  -- What `run` does with the outcome of a row.
  unfoldable pub place_row :
      ℕ → Row → RowOutcome Container → Buffers Row Container → M (Buffers Row Container)
  unfolding ◌>>=◌ hold_row keep_row
  place_row row_number row outcome b =
      if is_valid outcome.outcome
      then keep_row row_number row outcome b
      else hold_row row_number outcome b >>= λ b'.
          on_state (λ s. (should_log_row_error s).0) >> pure b'

  -- One round of the row loop.
  unfoldable pub process_row : Row → Buffers Row Container → M (Buffers Row Container)
  unfolding ◌>>=◌ place_row
  process_row row b = do
    on_state record_row
    total ← gets (λ r. r.state.total_rows)
    let row_number = start_row + total - 1
    outcome ← lift (process row row_number)
    on_state (record_row_outcome outcome)
    place_row row_number row outcome b

  unfoldable pub process_rows : List Row → Buffers Row Container → M (Buffers Row Container)
  unfolding ◌>>=◌ process_row
  process_rows [] b = pure b
  process_rows (row ∷ rows) b = do b' ← process_row row b; process_rows rows b'

  abbrev pub flush_rows : List (Option Container) → List (RowContext Row) → M (Unit {0})
  flush_rows [] contexts = pure tt
  flush_rows (x ∷ xs) contexts = flush_batch (x ∷ xs) contexts

  -- `run`
  unfoldable pub run : List Row → M (Unit {0})
  unfolding ◌>>=◌ process_rows drain record_results flush_batch flush_entries
  run rows = do
    b ← process_rows rows (record { quarantine = []; rows = []; contexts = [] })
    flush_rows b.rows b.contexts
    results ← drain
    record_results results
    flush_entries create_many b.quarantine
