-- ===== src/Quarantine/Counts.antt =====
-- The counts of src/infrastructure/ingestion/quarantine_repository.py: what a summary of the queue adds up to.
use reconciliation_ingestion.Prelude.{
  ℕ, ◌+◌, ◌≤◌, Bool, true, false, ◌&&◌, List, [], ◌∷◌, length, str_eq, ◌≡◌, refl, arith, Bool-cases,
  inl, inr,
}
use reconciliation_ingestion.Quarantine.Types.{
  IngestionQuarantineRecord, QuarantineStatus, is_pending, is_reprocessing, is_resolved,
  is_rejected, is_active,
}
use reconciliation_ingestion.Quarantine.Queries.{is_high}
use reconciliation_ingestion.Quarantine.Summaries.{
  QueueSummary, Group, is_overdue, count_record, count_in_group, new_group, add_to_groups,
  group_records, group_key_of, one_if, no_counts,
}

-- The counts of a summary or of a group fit together.
unfoldable pub AddsUp : QueueSummary → Type 0
AddsUp s =
    (s.total ≡ s.pending + s.reprocessing + s.resolved + s.rejected)
    × ((s.overdue ≤ s.pending + s.reprocessing) × (s.high_priority ≤ s.total))

pub one_of_four :
    (s : QuarantineStatus)
    → one_if (is_pending s)
        + one_if (is_reprocessing s)
        + one_if (is_resolved s)
        + one_if (is_rejected s)
      ≡ 1
one_of_four QuarantineStatus.pending = refl
one_of_four QuarantineStatus.reprocessing = refl
one_of_four QuarantineStatus.resolved = refl
one_of_four QuarantineStatus.rejected = refl

pub one_if-bound : (b : Bool) → one_if b ≤ 1
one_if-bound true = omega arith
one_if-bound false = omega arith

pub one_if-due :
    (s : QuarantineStatus) (b : Bool)
    → one_if (is_active s && b) ≤ one_if (is_pending s) + one_if (is_reprocessing s)
one_if-due QuarantineStatus.pending b = one_if-bound b
one_if-due QuarantineStatus.reprocessing b = one_if-bound b
one_if-due QuarantineStatus.resolved b = omega arith
one_if-due QuarantineStatus.rejected b = omega arith

-- One record counts in exactly one of the four.
count_record-AddsUp :
    (now : ℕ) (d : IngestionQuarantineRecord) (s : QueueSummary)
    → AddsUp s
    → AddsUp (count_record now d s)
unfolding AddsUp count_record is_overdue
count_record-AddsUp now d s h = (
  omega (arith, h.0, one_of_four d.status),
  (
    omega (arith, h.1.0, one_if-due d.status _),
    omega (arith, h.1.1, one_if-bound (is_high d.priority)),
  ),
)

pub totals : List Group → ℕ
totals [] = 0
totals (g ∷ gs) = g.counts.total + totals gs

totals-add_to_groups :
    (now : ℕ) (d : IngestionQuarantineRecord) (gs : List Group)
    → totals (add_to_groups now d gs) ≡ totals gs + 1
unfolding totals add_to_groups count_in_group new_group count_record
totals-add_to_groups now d [] = omega arith
totals-add_to_groups now d (g ∷ gs) = elim (Bool-cases (str_eq g.group_key (group_key_of d))) [
  | inl e ↦ rw e (omega arith)
  | inr e ↦ rw e (omega (arith, totals-add_to_groups now d gs))
]

totals-group_records :
    (now : ℕ) (ds : List IngestionQuarantineRecord) (gs : List Group)
    → totals (group_records now ds gs) ≡ totals gs + length ds
unfolding group_records
totals-group_records now [] gs = omega arith
totals-group_records now (d ∷ ds) gs =
    omega
      (arith, totals-group_records now ds (add_to_groups now d gs), totals-add_to_groups now d gs)

no_counts-AddsUp : AddsUp no_counts
unfolding AddsUp
no_counts-AddsUp = (omega arith, (omega arith, omega arith))

-- Every group adds up.
pub AllAddUp : List Group → Type 0
AllAddUp [] = Unit {0}
AllAddUp (g ∷ gs) = AddsUp g.counts × AllAddUp gs

AllAddUp-add_to_groups :
    (now : ℕ) (d : IngestionQuarantineRecord) (gs : List Group)
    → AllAddUp gs
    → AllAddUp (add_to_groups now d gs)
unfolding AllAddUp add_to_groups count_in_group new_group
AllAddUp-add_to_groups now d [] h = (count_record-AddsUp now d no_counts no_counts-AddsUp, tt)
AllAddUp-add_to_groups now d (g ∷ gs) h = elim (Bool-cases (str_eq g.group_key (group_key_of d))) [
  | inl e ↦ rw e (count_record-AddsUp now d g.counts h.0, h.1)
  | inr e ↦ rw e (h.0, AllAddUp-add_to_groups now d gs h.1)
]

AllAddUp-group_records :
    (now : ℕ) (ds : List IngestionQuarantineRecord) (gs : List Group)
    → AllAddUp gs
    → AllAddUp (group_records now ds gs)
unfolding group_records
AllAddUp-group_records now [] gs h = h
AllAddUp-group_records now (d ∷ ds) gs h =
    AllAddUp-group_records now ds (add_to_groups now d gs) (AllAddUp-add_to_groups now d gs h)

-- The groups account for every record that was read: their totals add up to the number of the records, and in
-- each group the records PENDING, REPROCESSING, RESOLVED and REJECTED add up to its total, the overdue ones
-- are among the first two, and those of high priority among all.
pub groups_cover_records :
    (now : ℕ) (ds : List IngestionQuarantineRecord)
    → (totals (group_records now ds []) ≡ length ds) × AllAddUp (group_records now ds [])
unfolding totals AllAddUp
groups_cover_records now ds =
    (omega (arith, totals-group_records now ds []), AllAddUp-group_records now ds [] tt)
