-- ===== src/RowBatch/Carried.antt =====
-- The rows that are on their way while src/pipeline/row_batch_coordinator.py runs: what a run state says of them, and
-- the quarantine writes, which carry them on.
use reconciliation_ingestion.Prelude.{
  ℕ, ◌+◌, List, [], ◌∷◌, ◌++◌, Option, none, some, length, leb, ◌≡◌, refl, arith, Bool-cases, inl,
  inr, subst,
}
use reconciliation_ingestion.Result.{Result, pure, Post, Post-bind, Post-lift}
use reconciliation_ingestion.Duplicates.{BatchWriteResult, attempted}
use reconciliation_ingestion.RunState.Defs.{record_batch_result, record_quarantined, add_result}
use reconciliation_ingestion.RunState.Accounting.{row_counts-record_batch_result}
use reconciliation_ingestion.RowBatch.Records.{QuarantineEntry}
use reconciliation_ingestion.RowBatch.Writer.{Write}
use reconciliation_ingestion.RowBatch.Coordinator.{
  Run, Buffers, flush_quarantine_records, hold_entry, flush_entries,
}

module _ {Row Container : Type 0} where
  -- `n` rows are read; each is persisted, a duplicate or failed, except `k` that are still on their way;
  -- and each failed one is rejected or refused by the persistence.
  pub record At (p : List (Write Row Container)) (n k : ℕ) (r : Run Row Container) : Type 0 where
    pub queue : r.pending ≡ p
    pub read : r.state.total_rows ≡ n
    pub every_row : n ≡ r.state.success_rows + r.state.duplicate_rows + r.state.failed_rows + k
    pub failures : r.state.failed_rows ≡ r.state.rejected_rows + r.state.persistence_failed_rows

  pub At-eq :
      (p : List (Write Row Container)) (n j k : ℕ) (r : Run Row Container)
      → At p n j r
      → j ≡ k
      → At p n k r
  At-eq p n j k r h e = subst (λ x. At p n x r) e h

  module _ (p : List (Write Row Container)) (n k : ℕ) where
    At-flush_quarantine_records :
        (create : Option (List QuarantineEntry → Result ℕ)) (es : List QuarantineEntry)
        (r : Run Row Container)
        → At p n k r
        → Post (λ _ t. At p n k t) (flush_quarantine_records create es r)
    unfolding flush_quarantine_records record_quarantined
    At-flush_quarantine_records none es r h = h
    At-flush_quarantine_records (some create) es r h =
        Post-lift (λ _ t. At p n k t) (create es) _ r (λ q _. ground arith)

    pub At-flush_entries :
        (create : Option (List QuarantineEntry → Result ℕ)) (es : List QuarantineEntry)
        (r : Run Row Container)
        → At p n k r
        → Post (λ _ t. At p n k t) (flush_entries create es r)
    unfolding flush_entries
    At-flush_entries create [] r h = h
    At-flush_entries create (e ∷ es) r h = At-flush_quarantine_records create (e ∷ es) r h

    abbrev pub Held : Buffers Row Container → Buffers Row Container → Run Row Container → Type 0
    Held b b' t = At p n k t × (b'.rows ≡ b.rows)

    -- A row that is held leaves the rows of the batch as they are.
    pub At-hold_entry :
        (create : Option (List QuarantineEntry → Result ℕ)) (size : ℕ) (e : QuarantineEntry)
        (b : Buffers Row Container) (r : Run Row Container)
        → At p n k r
        → Post (Held b) (hold_entry create size e b r)
    unfolding hold_entry
    At-hold_entry none size e b r h = (h, refl)
    At-hold_entry (some create) size e b r h =
        elim (Bool-cases (leb size (length (b.quarantine ++ (e ∷ []))))) [
          | inl y ↦ rw y (
              Post-bind (λ _ t. At p n k t) (Held b)
                (flush_quarantine_records (some create) (b.quarantine ++ (e ∷ [])))
                (λ _. pure (record b { quarantine = [] })) r
                (At-flush_quarantine_records (some create) (b.quarantine ++ (e ∷ [])) r h)
                (λ _ t g. (g, refl)))
          | inr x ↦ rw x (h, refl)
        ]

  -- One result: the rows that it accounts for are no longer on their way.
  pub At-record_batch_result :
      (p : List (Write Row Container)) (n k : ℕ) (q : BatchWriteResult Row) (r : Run Row Container)
      → At p n (attempted q + k) r
      → At p n k (record r { state = record_batch_result q r.state })
  unfolding attempted add_result
  At-record_batch_result p n k q r h = ground (arith, row_counts-record_batch_result q r.state)
