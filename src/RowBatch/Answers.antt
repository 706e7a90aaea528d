-- ===== src/RowBatch/Answers.antt =====
-- The results of a batch writer account for the rows that were submitted to it.
use reconciliation_ingestion.Prelude.{
  ℕ, ◌+◌, List, [], ◌∷◌, ◌++◌, Option, ◌≡◌, arith, length, ◌==◌, subst, Bool-cases, inl, inr,
}
use reconciliation_ingestion.Result.{Result, IsOk, and_then-IsOk}
use reconciliation_ingestion.Duplicates.{BatchWriteResult, attempted}
use reconciliation_ingestion.RowBatch.Writer.{Write, write, check_attempted, gather, attach_all}

-- The rows that some results account for.
unfoldable pub answered : {Row : Type 0} → List (BatchWriteResult Row) → ℕ
answered [] = 0
answered (r ∷ rs) = attempted r + answered rs

module _ {Row Container : Type 0} where
  -- The rows of the writes still to come.
  unfoldable pub queued : List (Write Row Container) → ℕ
  queued [] = 0
  queued (w ∷ ws) = length w.batch + queued ws

  pub queued-append :
      (ws : List (Write Row Container)) (w : Write Row Container)
      → queued (ws ++ (w ∷ [])) ≡ queued ws + length w.batch
  unfolding queued
  queued-append [] w = omega arith
  queued-append (v ∷ ws) w = omega (arith, queued-append ws w)

  module _ (insert_many : ℕ → List (Option Container) → Result (BatchWriteResult Row)) where
    attempted-check :
        (w : Write Row Container) (r : BatchWriteResult Row)
        → IsOk (λ q. attempted q ≡ length w.batch) (check_attempted insert_many w r)
    unfolding check_attempted attach_all
    attempted-check w r = elim (Bool-cases (attempted r == length w.batch)) [
      | inl e ↦ rw e (ground arith)
      | inr e ↦ rw e tt
    ]

    attempted-write :
        (w : Write Row Container) → IsOk (λ q. attempted q ≡ length w.batch) (write insert_many w)
    unfolding write
    attempted-write w = elim (Bool-cases (length w.contexts == length w.batch)) [
      | inl e ↦ rw e (
          and_then-IsOk (λ q. attempted q ≡ length w.batch) (insert_many w.number w.batch)
            (check_attempted insert_many w) (λ r _. attempted-check w r))
      | inr e ↦ rw e tt
    ]

    pub answered-gather :
        (ws : List (Write Row Container))
        → IsOk (λ rs. answered rs ≡ queued ws) (gather insert_many ws)
    unfolding gather answered queued
    answered-gather [] = omega arith
    answered-gather (w ∷ ws) =
        and_then-IsOk (λ rs. answered rs ≡ queued (w ∷ ws)) (write insert_many w) _
          λ r e.
            and_then-IsOk (λ rs. answered rs ≡ queued (w ∷ ws)) (gather insert_many ws) _
              λ rs f. omega (
                arith,
                subst (IsOk (λ q. attempted q ≡ length w.batch)) e (attempted-write w),
                subst (IsOk (λ qs. answered qs ≡ queued ws)) f (answered-gather ws),
              )
