-- ===== src/RowBatch/Writer.antt =====
-- `BatchWriteCoordinator` of src/pipeline/batch_writer.py. The repository is a parameter: its answer to
-- the n-th batch submitted. With several workers the writes run as tasks; `gather` gives their results in
-- the order of submission, whatever the order in which they ran, or raises.
use reconciliation_ingestion.Prelude.{
  ℕ, List, [], ◌∷◌, map, Option, none, some, length, get_elem?, ◌==◌, if◌then◌else◌,
}
use reconciliation_ingestion.Result.{
  Result, ok, err, context_mismatch, accounting_mismatch, and_then,
}
use reconciliation_ingestion.Quality.Types.{is_conflicting_code}
use reconciliation_ingestion.Duplicates.{BatchWriteResult, DuplicateDetail, RowContext, attempted}

-- A task: the number of its write, its batch, and the context of each row.
pub record Write (Row Container : Type 0) : Type 0 where
  pub number : ℕ
  pub batch : List (Option Container)
  pub contexts : List (RowContext Row)

module _ {Row : Type 0} where
  -- `detail.row_context = row_contexts[detail.incoming_index]`, for a conflict within the batch.
  unfoldable attach : List (RowContext Row) → DuplicateDetail Row → DuplicateDetail Row
  attach contexts d =
      if is_conflicting_code d.duplicate_type
      then elim (get_elem? contexts d.incoming_index) [
        | none ↦ d
        | some c ↦ record d { row_context = c }
      ]
      else d

  unfoldable pub attach_all : List (RowContext Row) → BatchWriteResult Row → BatchWriteResult Row
  unfolding attach
  attach_all contexts r = record r { duplicate_details = map (attach contexts) r.duplicate_details }

module _ {Row Container : Type 0}
    (insert_many : ℕ → List (Option Container) → Result (BatchWriteResult Row)) where
  unfoldable pub check_attempted :
      Write Row Container → BatchWriteResult Row → Result (BatchWriteResult Row)
  unfolding attempted
  check_attempted w r =
      if attempted r == length w.batch
      then ok (attach_all w.contexts r)
      else err accounting_mismatch

  -- `_write`
  unfoldable pub write : Write Row Container → Result (BatchWriteResult Row)
  unfolding check_attempted
  write w =
      if length w.contexts == length w.batch
      then and_then (insert_many w.number w.batch) (check_attempted w)
      else err context_mismatch

  -- `asyncio.gather`
  unfoldable pub gather : List (Write Row Container) → Result (List (BatchWriteResult Row))
  unfolding write
  gather [] = ok []
  gather (w ∷ ws) =
      let rest = gather ws in and_then (write w) (λ r. and_then rest (λ rs. ok (r ∷ rs)))
