-- ===== src/Quarantine/Blocking.antt =====
-- Which records block a unit, said without the filters of src/infrastructure/ingestion/quarantine_repository.py.
use text.Mathlib.TextPositions.{eq_refl}
use reconciliation_ingestion.Prelude.{
  ◌⊎◌, refl, ap, any, same_key, Option, eq_iff, str_eq, String, Bool, true, ◌&&◌, none, some, List,
  ◌≡◌, arith, inl, inr,
}
use reconciliation_ingestion.Quarantine.Types.{
  IngestionQuarantineRecord, QuarantineStatus, is_active,
}
use reconciliation_ingestion.Quarantine.History.{&&-left}
use reconciliation_ingestion.Quarantine.Queries.{is_blocker}

-- A record of the unit that an operator has still to settle.
pub record IsBlocking (key : String) (d : IngestionQuarantineRecord) : Type 0 where
  pub unit : d.source_unit_key ≡ some key
  pub active : (d.status ≡ QuarantineStatus.pending) ⊎ (d.status ≡ QuarantineStatus.reprocessing)

-- What may stand under an identifier: no record, one that does not block the unit, or one that is in the list.
pub data IsListed (key : String) (ds : List IngestionQuarantineRecord)
    : Option IngestionQuarantineRecord → Type 0 where
  no_record : IsListed key ds none
  not_blocking : (d : IngestionQuarantineRecord) → ¬ (IsBlocking key d) → IsListed key ds (some d)
  listed :
      (d : IngestionQuarantineRecord)
      → any (λ e. str_eq e.id d.id) ds ≡ true
      → IsListed key ds (some d)

active_if :
    (s : QuarantineStatus)
    → (s ≡ QuarantineStatus.pending) ⊎ (s ≡ QuarantineStatus.reprocessing)
    → is_active s ≡ true
active_if s (inl e) = rw e refl
active_if s (inr e) = rw e refl

pub IsBlocking-is_blocker :
    (key : String) (d : IngestionQuarantineRecord) → IsBlocking key d → is_blocker key d ≡ true
unfolding is_blocker
IsBlocking-is_blocker key d b = rw (b.unit, eq_refl key, active_if d.status b.active) refl

pub &&-right : (a b : Bool) → (a && b) ≡ true → b ≡ true
&&-right a b h = ground arith

same_key-true : (o : Option String) (k : String) → same_key o (some k) ≡ true → o ≡ some k
same_key-true none k h = cc h
same_key-true (some x) k h = ap some ((eq_iff x k).0 h)

active_is :
    (s : QuarantineStatus)
    → is_active s ≡ true
    → (s ≡ QuarantineStatus.pending) ⊎ (s ≡ QuarantineStatus.reprocessing)
active_is QuarantineStatus.pending h = inl refl
active_is QuarantineStatus.reprocessing h = inr refl
active_is QuarantineStatus.resolved h = cc h
active_is QuarantineStatus.rejected h = cc h

pub IsBlocking-of_is_blocker :
    (key : String) (d : IngestionQuarantineRecord) → is_blocker key d ≡ true → IsBlocking key d
unfolding is_blocker
IsBlocking-of_is_blocker key d h = record {
  unit =
      same_key-true d.source_unit_key key
        (&&-left (same_key d.source_unit_key (some key)) (is_active d.status) h);
  active =
      active_is d.status (&&-right (same_key d.source_unit_key (some key)) (is_active d.status) h);
}
