-- ===== src/Quarantine/Totals.antt =====
-- `summarize` of src/infrastructure/ingestion/quarantine_repository.py counts in several queries what adds up.
use reconciliation_ingestion.Prelude.{
  ℕ, ◌+◌, ◌≤◌, Bool, true, false, ◌&&◌, Option, none, some, List, [], ◌∷◌, count_if, ◌≡◌, refl, sym,
  ◌∙◌, arith, Bool-cases, inl, inr, if◌then◌else◌, subst,
}
use reconciliation_ingestion.Quarantine.Types.{
  IngestionQuarantineRecord, QuarantineStatus, is_pending, is_reprocessing, is_resolved,
  is_rejected, same_status, is_active,
}
use reconciliation_ingestion.Quarantine.Collection.{Collection, IsDocumentStore}
use reconciliation_ingestion.Quarantine.Updates.{at_most}
use reconciliation_ingestion.Quarantine.Queries.{QuarantineQuery, matches, is_high}
use reconciliation_ingestion.Quarantine.Summaries.{
  is_overdue, asks_other, asks_terminal, count_with, status_count, summarize, one_if,
}
use reconciliation_ingestion.Quarantine.History.{not-true}
use reconciliation_ingestion.Quarantine.Counts.{AddsUp, one_of_four, one_if-due, one_if-bound}

count_if-cons :
    {A : Type 0} (p : A → Bool) (x : A) (xs : List A)
    → count_if p (x ∷ xs) ≡ one_if (p x) + count_if p xs
count_if-cons p x xs = elim (Bool-cases (p x)) [
  | inl e ↦ rw (e, count_if) (omega arith)
  | inr e ↦ rw (e, count_if) (omega arith)
]

count_if-none :
    {A : Type 0} (p : A → Bool) (xs : List A) → ((x : A) → p x ≡ false) → count_if p xs ≡ 0
count_if-none p [] h = refl
count_if-none p (x ∷ xs) h = rw (h x, count_if) (count_if-none p xs h)

one_record :
    (m : Bool) (s : QuarantineStatus)
    → one_if m
      ≡ one_if (m && is_pending s)
        + one_if (m && is_reprocessing s)
        + one_if (m && is_resolved s)
        + one_if (m && is_rejected s)
one_record true s = sym (one_of_four s)
one_record false s = refl

module _ (m : IngestionQuarantineRecord → Bool) where
  abbrev in_status : QuarantineStatus → List IngestionQuarantineRecord → ℕ
  in_status s ds = count_if (λ d. m d && same_status s d.status) ds

  four_counts :
      (ds : List IngestionQuarantineRecord)
      → count_if m ds
        ≡ in_status QuarantineStatus.pending ds
          + in_status QuarantineStatus.reprocessing ds
          + in_status QuarantineStatus.resolved ds
          + in_status QuarantineStatus.rejected ds
  four_counts [] = refl
  four_counts (d ∷ ds) = omega (
    arith,
    four_counts ds,
    one_record (m d) d.status,
    count_if-cons m d ds,
    count_if-cons (λ d. m d && same_status QuarantineStatus.pending d.status) d ds,
    count_if-cons (λ d. m d && same_status QuarantineStatus.reprocessing d.status) d ds,
    count_if-cons (λ d. m d && same_status QuarantineStatus.resolved d.status) d ds,
    count_if-cons (λ d. m d && same_status QuarantineStatus.rejected d.status) d ds,
  )

  one_due :
      (s : QuarantineStatus) (a b : Bool)
      → one_if (a && (is_active s && b))
        ≤ one_if (a && is_pending s) + one_if (a && is_reprocessing s)
  one_due s true b = one_if-due s b
  one_due s false b = omega arith

  due_counts :
      (now : ℕ) (ds : List IngestionQuarantineRecord)
      → count_if (λ d. m d && is_overdue now d) ds
        ≤ in_status QuarantineStatus.pending ds + in_status QuarantineStatus.reprocessing ds
  unfolding is_overdue
  due_counts now [] = omega arith
  due_counts now (d ∷ ds) = omega (
    arith,
    due_counts now ds,
    one_due d.status (m d) (at_most d.review_due_at now),
    count_if-cons (λ d. m d && is_overdue now d) d ds,
    count_if-cons (λ d. m d && same_status QuarantineStatus.pending d.status) d ds,
    count_if-cons (λ d. m d && same_status QuarantineStatus.reprocessing d.status) d ds,
  )

  one_part : (a b : Bool) → one_if (a && b) ≤ one_if a
  one_part true b = one_if-bound b
  one_part false b = omega arith

  part_count :
      (p : IngestionQuarantineRecord → Bool) (ds : List IngestionQuarantineRecord)
      → count_if (λ d. m d && p d) ds ≤ count_if m ds
  part_count p [] = omega arith
  part_count p (d ∷ ds) = omega (
    arith,
    part_count p ds,
    one_part (m d) (p d),
    count_if-cons (λ d. m d && p d) d ds,
    count_if-cons m d ds,
  )

-- A query for one status matches no record of another.
asked_status :
    (t s u : QuarantineStatus)
    → same_status t s ≡ false
    → same_status s u ≡ true
    → same_status t u ≡ false
asked_status t s u p q = subst (λ v. same_status t v ≡ false) (same s u q) p
  where
    same : (s u : QuarantineStatus) → same_status s u ≡ true → s ≡ u
    same QuarantineStatus.pending QuarantineStatus.pending q = refl
    same QuarantineStatus.reprocessing QuarantineStatus.reprocessing q = refl
    same QuarantineStatus.resolved QuarantineStatus.resolved q = refl
    same QuarantineStatus.rejected QuarantineStatus.rejected q = refl
    same _ _ q = cc q

matches-status :
    (q : QuarantineQuery) (now : ℕ) (s : QuarantineStatus) (o : Option QuarantineStatus)
    (d : IngestionQuarantineRecord)
    → q.status ≡ o
    → asks_other o s ≡ true
    → same_status s d.status ≡ true
    → matches q now d ≡ false
unfolding matches
matches-status q now s none d p h e = cc h
matches-status q now s (some t) d p h e =
    rw (p, asked_status t s d.status (not-true _ h) e) (ground arith)

module _ (c : Collection) (store : IsDocumentStore c) where
  open c use {Db, count_documents}

  none_counted :
      (q : QuarantineQuery) (now : ℕ) (s : QuarantineStatus) (db : Db)
      → asks_other q.status s ≡ true
      → count_with c q now (λ d. same_status s d.status) db ≡ 0
  none_counted q now s db e =
      let (ds, eq) = store.count_is db in
      eq (λ d. matches q now d && same_status s d.status)
      ∙ count_if-none (λ d. matches q now d && same_status s d.status) ds none_matches
    where
      none_matches :
          (d : IngestionQuarantineRecord) → (matches q now d && same_status s d.status) ≡ false
      none_matches d = elim (Bool-cases (same_status s d.status)) [
        | inl t ↦ rw (matches-status q now s q.status d refl e t) refl
        | inr t ↦ rw t (ground arith)
      ]

  status_count-eq :
      (q : QuarantineQuery) (now : ℕ) (s : QuarantineStatus) (db : Db)
      → status_count c q now s db ≡ count_with c q now (λ d. same_status s d.status) db
  status_count-eq q now s db = elim (Bool-cases (asks_other q.status s)) [
    | inl e ↦ rw e (sym (none_counted q now s db e))
    | inr e ↦ rw e refl
  ]

  -- The summary of the queue adds up, though its numbers come from queries of their own: the records PENDING,
  -- REPROCESSING, RESOLVED and REJECTED are those of the total, the overdue ones are among the first two, and
  -- those of high priority among all.
  pub summary-AddsUp : (q : QuarantineQuery) (now : ℕ) (db : Db) → AddsUp (summarize c q now db)
  unfolding AddsUp summarize
  summary-AddsUp q now db =
      let (ds, eq) = store.count_is db in
      let m = matches q now in
      let pending = status_count-eq q now QuarantineStatus.pending db ∙ eq _ in
      let reprocessing = status_count-eq q now QuarantineStatus.reprocessing db ∙ eq _ in
      let resolved = status_count-eq q now QuarantineStatus.resolved db ∙ eq _ in
      let rejected = status_count-eq q now QuarantineStatus.rejected db ∙ eq _ in
      (
        omega (arith, eq m, four_counts m ds, pending, reprocessing, resolved, rejected),
        (
          overdue_part (asks_terminal q.status) _ _ (
              omega (
                arith,
                eq (λ d. m d && is_overdue now d),
                due_counts m now ds,
                pending,
                reprocessing,
              )),
          omega (
            arith,
            eq m,
            eq (λ d. m d && is_high d.priority),
            part_count m (λ d. is_high d.priority) ds,
          ),
        ),
      )
    where
      overdue_part : (b : Bool) (x y : ℕ) → x ≤ y → (if b then 0 else x) ≤ y
      overdue_part true x y h = omega arith
      overdue_part false x y h = h
