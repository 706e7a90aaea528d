-- ===== src/RowBatch/Returns.antt =====
-- The coordinator of src/pipeline/row_batch_coordinator.py comes to its end, given collaborators that do.
use reconciliation_ingestion.Prelude.{
  ℕ, ◌+◌, ◌-◌, List, [], ◌∷◌, ◌++◌, Option, none, some, length, ltb, leb, ◌==◌, All, ◌≡◌, refl,
  arith, length-append, ==_iff, Bool-cases, inl, inr,
}
use reconciliation_ingestion.Result.{
  Result, ok, IsOk, IsReturned, and_then, and_then-IsReturned, IsReturned-and_then, pure, lift,
  Returns, Returns-bind, Returns-lift, Returns-Post, ◌>>◌, ◌>>=◌,
}
use reconciliation_ingestion.Quality.Types.{is_valid}
use reconciliation_ingestion.Duplicates.{BatchWriteResult, RowContext, attempted}
use reconciliation_ingestion.RunState.State.{RowOutcome, record_row}
use reconciliation_ingestion.RunState.Defs.{
  record_row_outcome, record_batch_result, record_quarantined, should_log_row_error,
}
use reconciliation_ingestion.RowBatch.Records.{QuarantineEntry}
use reconciliation_ingestion.RowBatch.Writer.{Write, write, check_attempted, gather}
use reconciliation_ingestion.RowBatch.Coordinator.{
  Collaborators, Run, Buffers, drain, submit, flush_quarantine_records, hold_entry,
  quarantine_conflicts, conflict_entries, flush_entries, record_results, flush_batch, hold_row,
  keep_row, place_row, process_row, process_rows, flush_rows, run,
}
use reconciliation_ingestion.RowBatch.Accounting.{Settled, start, run_accounts}

abbrev CreatesAll : Option (List QuarantineEntry → Result ℕ) → Type 0
CreatesAll none = Unit {0}
CreatesAll (some create) = (es : List QuarantineEntry) → IsReturned (create es)

-- The collaborators raise nothing, and a batch that is written attempts each of its rows.
pub record IsReliable {Row Container : Type 0} (c : Collaborators Row Container) : Type 0 where
  pub processes : (row : Row) (n : ℕ) → IsReturned (c.process row n)
  pub inserts : (n : ℕ) (batch : List (Option Container)) → IsReturned (c.insert_many n batch)
  pub attempts :
      (n : ℕ) (batch : List (Option Container))
      → IsOk (λ r. attempted r ≡ length batch) (c.insert_many n batch)
  pub creates : CreatesAll c.create_many

module _ {Row Container : Type 0} (c : Collaborators Row Container) (ready : IsReliable c) where
  -- A write has a context for each of its rows.
  abbrev Fits : Write Row Container → Type 0
  Fits w = length w.contexts ≡ length w.batch

  abbrev IsFit : Run Row Container → Type 0
  IsFit r = All Fits r.pending

  abbrev HasContexts : Buffers Row Container → Run Row Container → Type 0
  HasContexts b r = (length b.contexts ≡ length b.rows) × IsFit r

  IsReturned-write : (w : Write Row Container) → Fits w → IsReturned (write c.insert_many w)
  unfolding write check_attempted
  IsReturned-write w h = rw ((==_iff (length w.contexts) (length w.batch)).1 h) (
      and_then-IsReturned (λ r. attempted r ≡ length w.batch) (c.insert_many w.number w.batch)
        (check_attempted c.insert_many w) (ready.inserts w.number w.batch)
        (ready.attempts w.number w.batch)
        (λ r p. rw ((==_iff (attempted r) (length w.batch)).1 p) tt))

  IsReturned-gather :
      (ws : List (Write Row Container)) → All Fits ws → IsReturned (gather c.insert_many ws)
  unfolding gather
  IsReturned-gather [] h = tt
  IsReturned-gather (w ∷ ws) h =
      IsReturned-and_then (write c.insert_many w)
        (λ r. and_then (gather c.insert_many ws) (λ rs. ok (r ∷ rs))) (IsReturned-write w h.0)
        (λ r.
          IsReturned-and_then (gather c.insert_many ws) (λ rs. ok (r ∷ rs))
            (IsReturned-gather ws h.1) (λ rs. tt))

  All-snoc :
      (ws : List (Write Row Container)) (w : Write Row Container)
      → All Fits ws
      → Fits w
      → All Fits (ws ++ (w ∷ []))
  All-snoc [] w h f = (f, tt)
  All-snoc (v ∷ ws) w h f = (h.0, All-snoc ws w h.1 f)

  Returns-flush_quarantine_records :
      (o : Option (List QuarantineEntry → Result ℕ)) (es : List QuarantineEntry)
      (r : Run Row Container)
      → CreatesAll o
      → IsFit r
      → Returns (λ _ t. IsFit t) (flush_quarantine_records o es r)
  unfolding flush_quarantine_records
  Returns-flush_quarantine_records none es r h f = f
  Returns-flush_quarantine_records (some create) es r h f =
      Returns-bind (λ _ t. IsFit t) (λ _ t. IsFit t) (lift (create es))
        (λ n t. (ok tt, record t { state = record_quarantined n t.state })) r
        (Returns-lift IsFit (create es) r (h es) f) (λ n t g. g)

  Returns-flush_entries :
      (es : List QuarantineEntry) (r : Run Row Container)
      → IsFit r
      → Returns (λ _ t. IsFit t) (flush_entries c.create_many es r)
  unfolding flush_entries
  Returns-flush_entries [] r f = f
  Returns-flush_entries (e ∷ es) r f =
      Returns-flush_quarantine_records c.create_many (e ∷ es) r ready.creates f

  Returns-record_results :
      (rs : List (BatchWriteResult Row)) (r : Run Row Container)
      → IsFit r
      → Returns (λ _ t. IsFit t) (record_results c rs r)
  unfolding record_results quarantine_conflicts ◌>>=◌
  Returns-record_results [] r f = f
  Returns-record_results (x ∷ rs) r f =
      Returns-bind (λ _ t. IsFit t) (λ _ t. IsFit t)
        (flush_entries c.create_many (conflict_entries c x.duplicate_details))
        (λ _. record_results c rs) (record r { state = record_batch_result x r.state })
        (Returns-flush_entries (conflict_entries c x.duplicate_details)
          (record r { state = record_batch_result x r.state }) f)
        (λ _ t g. Returns-record_results rs t g)

  Returns-drain : (r : Run Row Container) → IsFit r → Returns (λ _ t. IsFit t) (drain c r)
  unfolding drain ◌>>=◌
  Returns-drain r f =
      Returns-lift IsFit (gather c.insert_many r.pending) (record r { pending = [] })
        (IsReturned-gather r.pending f) tt

  abbrev task :
      Run Row Container → List (Option Container) → List (RowContext Row) → Write Row Container
  task r rows contexts = record { number = r.db_write_count; batch = rows; contexts = contexts }

  Returns-submit :
      (rows : List (Option Container)) (contexts : List (RowContext Row)) (r : Run Row Container)
      → length contexts ≡ length rows
      → IsFit r
      → Returns (λ _ t. IsFit t) (submit c rows contexts r)
  unfolding submit
  Returns-submit rows contexts r h f = elim (Bool-cases (c.workers == 1)) [
    | inl e ↦ rw e (
        Returns-lift IsFit (gather c.insert_many (task r rows contexts ∷ [])) r
          (IsReturned-gather (task r rows contexts ∷ []) (h, tt)) f)
    | inr e ↦
        rw e
          (elim (Bool-cases (ltb (length (r.pending ++ (task r rows contexts ∷ []))) c.workers)) [
            | inl l ↦ rw l (All-snoc r.pending (task r rows contexts) f h)
            | inr l ↦ rw l (
                Returns-drain (record r { pending = r.pending ++ (task r rows contexts ∷ []) })
                  (All-snoc r.pending (task r rows contexts) f h))
          ])
  ]

  Returns-flush_batch :
      (rows : List (Option Container)) (contexts : List (RowContext Row)) (r : Run Row Container)
      → length contexts ≡ length rows
      → IsFit r
      → Returns (λ _ t. IsFit t) (flush_batch c rows contexts r)
  unfolding flush_batch ◌>>=◌
  Returns-flush_batch rows contexts r h f =
      Returns-bind (λ _ t. IsFit t) (λ _ t. IsFit t) (submit c rows contexts)
        (λ results t. record_results c results (record t { db_write_count = t.db_write_count + 1 }))
        r (Returns-submit rows contexts r h f)
        (λ results t g.
          Returns-record_results results (record t { db_write_count = t.db_write_count + 1 }) g)

  snoc-fits :
      (contexts : List (RowContext Row)) (rows : List (Option Container)) (x : RowContext Row)
      (o : Option Container)
      → length contexts ≡ length rows
      → length (contexts ++ (x ∷ [])) ≡ length (rows ++ (o ∷ []))
  snoc-fits contexts rows x o h =
      omega (arith, h, length-append contexts (x ∷ []), length-append rows (o ∷ []))

  Returns-keep_row :
      (n : ℕ) (row : Row) (o : RowOutcome Container) (b : Buffers Row Container)
      (r : Run Row Container)
      → HasContexts b r
      → Returns HasContexts (keep_row c n row o b r)
  unfolding keep_row ◌>>=◌
  Returns-keep_row n row o b r h =
      let rows = b.rows ++ (o.data_container ∷ []) in
      let contexts = b.contexts ++ (record { row_number = some n; raw_row = some row } ∷ []) in
      let fits =
        snoc-fits b.contexts b.rows (record { row_number = some n; raw_row = some row })
          o.data_container h.0 in
      elim (Bool-cases (leb c.batch_size (length rows))) [
        | inl e ↦ rw e (
            Returns-bind (λ _ t. IsFit t) HasContexts (flush_batch c rows contexts)
              (λ _. pure (record b { rows = []; contexts = [] })) r
              (Returns-flush_batch rows contexts r fits h.1) (λ _ t g. (refl, g)))
        | inr e ↦ rw e (fits, h.1)
      ]

  Returns-hold_entry :
      (create : Option (List QuarantineEntry → Result ℕ)) (size : ℕ) (q : QuarantineEntry)
      (b : Buffers Row Container) (r : Run Row Container)
      → CreatesAll create
      → HasContexts b r
      → Returns HasContexts (hold_entry create size q b r)
  unfolding hold_entry ◌>>=◌
  Returns-hold_entry none size q b r k h = h
  Returns-hold_entry (some create) size q b r k h =
      let held = b.quarantine ++ (q ∷ []) in
      elim (Bool-cases (leb size (length held))) [
        | inl e ↦ rw e (
            Returns-bind (λ _ t. IsFit t) HasContexts (flush_quarantine_records (some create) held)
              (λ _. pure (record b { quarantine = [] })) r
              (Returns-flush_quarantine_records (some create) held r k h.1) (λ _ t g. (h.0, g)))
        | inr e ↦ rw e h
      ]

  Returns-place_row :
      (n : ℕ) (row : Row) (o : RowOutcome Container) (b : Buffers Row Container)
      (r : Run Row Container)
      → HasContexts b r
      → Returns HasContexts (place_row c n row o b r)
  unfolding place_row hold_row ◌>>=◌
  Returns-place_row n row o b r h = elim (Bool-cases (is_valid o.outcome)) [
    | inl v ↦ rw v (Returns-keep_row n row o b r h)
    | inr v ↦ rw v (
        Returns-bind HasContexts HasContexts (hold_row c n o b)
          (λ b' t. (ok b', record t { state = (should_log_row_error t.state).0 })) r
          (Returns-hold_entry c.create_many c.batch_size _ b r ready.creates h) (λ b' t g. g))
  ]

  Returns-process_row :
      (row : Row) (b : Buffers Row Container) (r : Run Row Container)
      → HasContexts b r
      → Returns HasContexts (process_row c row b r)
  unfolding process_row ◌>>=◌
  Returns-process_row row b r h =
      let began = record r { state = record_row r.state } in
      let number = c.start_row + began.state.total_rows - 1 in
      Returns-bind (λ _ t. HasContexts b t) HasContexts (lift (c.process row number))
        (λ o t. place_row c number row o b (record t { state = record_row_outcome o t.state }))
        began
        (Returns-lift (HasContexts b) (c.process row number) began (ready.processes row number) h)
        (λ o t g.
          Returns-place_row number row o b (record t { state = record_row_outcome o t.state }) g)

  Returns-process_rows :
      (rows : List Row) (b : Buffers Row Container) (r : Run Row Container)
      → HasContexts b r
      → Returns HasContexts (process_rows c rows b r)
  unfolding process_rows ◌>>=◌
  Returns-process_rows [] b r h = h
  Returns-process_rows (row ∷ rows) b r h =
      Returns-bind HasContexts HasContexts (process_row c row b) (process_rows c rows) r
        (Returns-process_row row b r h) (λ b' t g. Returns-process_rows rows b' t g)

  Returns-flush_rows :
      (rows : List (Option Container)) (contexts : List (RowContext Row)) (r : Run Row Container)
      → length contexts ≡ length rows
      → IsFit r
      → Returns (λ _ t. IsFit t) (flush_rows c rows contexts r)
  Returns-flush_rows [] contexts r h f = f
  Returns-flush_rows (x ∷ xs) contexts r h f = Returns-flush_batch (x ∷ xs) contexts r h f

  Returns-run : (rows : List Row) → Returns (λ _ t. IsFit t) (run c rows (start c))
  unfolding run
  Returns-run rows =
      Returns-bind HasContexts (λ _ t. IsFit t)
        (process_rows c rows (record { quarantine = []; rows = []; contexts = [] }))
        (λ b.
          flush_rows c b.rows b.contexts
          >> (drain c >>= λ results.
              record_results c results >> flush_entries c.create_many b.quarantine))
        (start c)
        (Returns-process_rows rows (record { quarantine = []; rows = []; contexts = [] }) (start c)
          (refl, tt))
        λ b t g.
          Returns-bind (λ _ u. IsFit u) (λ _ u. IsFit u) (flush_rows c b.rows b.contexts)
            (λ _. drain c >>= λ results.
              record_results c results >> flush_entries c.create_many b.quarantine)
            t (Returns-flush_rows b.rows b.contexts t g.0 g.1)
            λ _ u k.
              Returns-bind (λ _ v. IsFit v) (λ _ v. IsFit v) (drain c)
                (λ results. record_results c results >> flush_entries c.create_many b.quarantine) u
                (Returns-drain u k)
                λ results v k.
                  Returns-bind (λ _ w. IsFit w) (λ _ w. IsFit w) (record_results c results)
                    (λ _. flush_entries c.create_many b.quarantine) v
                    (Returns-record_results results v k)
                    (λ _ w k. Returns-flush_entries b.quarantine w k)

  -- Given collaborators that raise nothing and batches that attempt each of their rows, `run` comes to its end
  -- on any rows, and has then counted every row that it read as persisted, as a duplicate or as failed, every
  -- failed row as rejected or as refused by the persistence, and left no batch unwritten.
  pub run_settles_every_row :
      (rows : List Row) → Returns (λ _ t. Settled c (length rows) t) (run c rows (start c))
  run_settles_every_row rows =
      Returns-Post (λ _ t. IsFit t) (λ _ t. Settled c (length rows) t) (run c rows (start c))
        (Returns-run rows) (run_accounts c rows)
