-- ===== src/Quarantine/Lost.antt =====
-- Calls of src/infrastructure/ingestion/quarantine_repository.py by an operator whose claim is lost, before the call
-- or between its read and its update.
use text.Mathlib.TextEquality.{eq_iff}
use reconciliation_ingestion.Prelude.{
  ℕ, ◌≤◌, String, Bool, true, false, ◌&&◌, Option, none, some, ◌≡◌, ◌≢◌, refl, ap, ◌⊎◌, inl, inr,
  arith, Bool-cases, str_eq, same_key, leb, ltb, not, if◌then◌else◌,
}
use reconciliation_ingestion.Result.{Result, ok, err, IsOk}
use reconciliation_ingestion.Quarantine.Types.{
  IngestionQuarantineRecord, QuarantineStatus, QuarantineAction, RetentionPolicy, days_for,
  is_reprocessing,
}
use reconciliation_ingestion.Quarantine.Collection.{Collection, IsDocumentStore}
use reconciliation_ingestion.Quarantine.Updates.{
  Tick, Evidence, bounded_action_id, claim_expired, is_owned, lease_is_live,
}
use reconciliation_ingestion.Quarantine.Repository.{
  holds_claim, release_for_retry, release_as, resolve, resolve_as, resolve_until,
}

-- What has become of the claim of an operator who read `seen`: the record is not worked on any more, or by another
-- operator, or the end of the lease has passed.
pub data HasLost (operator_id : String) (now : ℕ) (seen d : IngestionQuarantineRecord)
    : Type 0 where
  not_worked_on : d.status ≢ QuarantineStatus.reprocessing → HasLost operator_id now seen d
  taken_over : d.claimed_by ≢ some operator_id → HasLost operator_id now seen d
  run_out :
      (before limit : ℕ)
      → seen.claim_expires_at ≡ some before
      → d.claim_expires_at ≡ some limit
      → limit ≤ now
      → HasLost operator_id now seen d

is_reprocessing-≢ :
    (s : QuarantineStatus) → s ≢ QuarantineStatus.reprocessing → is_reprocessing s ≡ false
is_reprocessing-≢ QuarantineStatus.pending n = refl
is_reprocessing-≢ QuarantineStatus.reprocessing n = absurd (n refl)
is_reprocessing-≢ QuarantineStatus.resolved n = refl
is_reprocessing-≢ QuarantineStatus.rejected n = refl

same_key-≢_some : (o : Option String) (k : String) → o ≢ some k → same_key o (some k) ≡ false
same_key-≢_some none k n = refl
same_key-≢_some (some x) k n = elim (Bool-cases (str_eq x k)) [
  | inl e ↦ absurd (n (ap some ((eq_iff x k).0 e)))
  | inr e ↦ e
]

over : (limit now : ℕ) → limit ≤ now → ltb now limit ≡ false
over limit now h = ground arith

not_expired : (limit now : ℕ) → limit ≤ now → not (leb limit now) ≡ false
not_expired limit now h = ground arith

one_of_three : (a b e : Bool) → (a ≡ false) ⊎ ((b ≡ false) ⊎ (e ≡ false)) → (a && (b && e)) ≡ false
one_of_three a b e h = ground arith

-- A claim that the record shows as lost when it is read is refused there.
HasLost-holds_claim :
    (operator_id : String) (now : ℕ) (d : IngestionQuarantineRecord)
    → HasLost operator_id now d d
    → holds_claim operator_id now d ≡ false
unfolding holds_claim claim_expired
HasLost-holds_claim operator_id now d (not_worked_on n) =
    one_of_three (is_reprocessing d.status) _ (not (claim_expired d.claim_expires_at now))
      (inl (is_reprocessing-≢ d.status n))
HasLost-holds_claim operator_id now d (taken_over n) =
    one_of_three (is_reprocessing d.status) _ (not (claim_expired d.claim_expires_at now))
      (inr (inl (same_key-≢_some d.claimed_by operator_id n)))
HasLost-holds_claim operator_id now d (run_out before limit p q h) =
    one_of_three (is_reprocessing d.status) _ (not (claim_expired d.claim_expires_at now))
      (inr (inr (rw q (not_expired limit now h))))

one_of_four :
    (a b c e : Bool) → (a ≡ false) ⊎ ((b ≡ false) ⊎ (e ≡ false)) → (a && (b && (c && e))) ≡ false
one_of_four a b c e h = ground arith

HasLost-is_owned :
    (operator_id : String) (a : Option String) (now : ℕ) (seen d : IngestionQuarantineRecord)
    → HasLost operator_id now seen d
    → is_owned operator_id a now seen d ≡ false
unfolding is_owned
HasLost-is_owned operator_id a now seen d (not_worked_on n) =
    one_of_four (is_reprocessing d.status) _ _ (lease_is_live seen.claim_expires_at now d)
      (inl (is_reprocessing-≢ d.status n))
HasLost-is_owned operator_id a now seen d (taken_over n) =
    one_of_four (is_reprocessing d.status) _ _ (lease_is_live seen.claim_expires_at now d)
      (inr (inl (same_key-≢_some d.claimed_by operator_id n)))
HasLost-is_owned operator_id a now seen d (run_out before limit p q h) =
    one_of_four (is_reprocessing d.status) _ _ (lease_is_live seen.claim_expires_at now d)
      (inr (inr (rw (p, q) (over limit now h))))

module _ (c : Collection) (s : IsDocumentStore c) where
  open c use {Db, find_one, update_one}

  module _ (operator_id : String) (now : ℕ) (seen : IngestionQuarantineRecord) (others : Db → Db)
      (db : Db) where
    -- The call has written nothing, and the answer, where there is one, is no; the others may have written, where the
    -- call went on because the claim was not lost yet in the record that it read.
    abbrev pub IsRefused : Result Bool × Db → Type 0
    IsRefused x =
        IsOk (λ b. b ≡ false) x.0
        × ((x.1 ≡ db) ⊎ ((x.1 ≡ others db) × (¬ (HasLost operator_id now seen seen))))

    if_held :
        (x : Result Bool × Db)
        → (holds_claim operator_id now seen ≡ true → IsRefused x)
        → IsRefused (if holds_claim operator_id now seen then x else (ok false, db))
    if_held x h = elim (Bool-cases (holds_claim operator_id now seen)) [
      | inl e ↦ rw e (h e)
      | inr e ↦ rw e (refl, inl refl)
    ]

    still_held : holds_claim operator_id now seen ≡ true → ¬ (HasLost operator_id now seen seen)
    still_held e l = cc (e, HasLost-holds_claim operator_id now seen l)

  module _ (others : Db → Db) (k operator_id : String) (tick : Tick) (db : Db)
      (seen d : IngestionQuarantineRecord) (read : find_one k db ≡ some seen)
      (found : find_one k (others db) ≡ some d) (lost : HasLost operator_id tick.now seen d) where
    abbrev Refused : Result Bool × Db → Type 0
    Refused = IsRefused operator_id tick.now seen others db

    missed :
        (a : Option String) (f : IngestionQuarantineRecord → IngestionQuarantineRecord)
        → holds_claim operator_id tick.now seen ≡ true
        → let u = update_one k (is_owned operator_id a tick.now seen) f (others db) in
          Refused (ok u.0, u.1)
    missed a f e =
        rw
          (s.update_miss k (is_owned operator_id a tick.now seen) f (others db) d found
            (HasLost-is_owned operator_id a tick.now seen d lost))
          (refl, inr (refl, still_held operator_id tick.now seen others db e))

    lost_release :
        (ev : Evidence) (r : Result (Option String))
        → Refused (release_as c k operator_id ev tick others r db)
    lost_release ev (err e) = (tt, inl refl)
    lost_release ev (ok a) = rw read (elim (Bool-cases (holds_claim operator_id tick.now seen)) [
      | inl e ↦ rw e (missed a _ e)
      | inr e ↦ rw e (refl, inl refl)
    ])

    lost_resolve_until :
        (target : QuarantineStatus) (act : QuarantineAction) (ev : Evidence) (days : Result ℕ)
        → holds_claim operator_id tick.now seen ≡ true
        → Refused (resolve_until c k target operator_id act ev tick others seen days db)
    lost_resolve_until target act ev (err e) h = (tt, inl refl)
    lost_resolve_until target act ev (ok days) h = missed ev.action_id _ h

    lost_resolve :
        (pol : RetentionPolicy) (target : QuarantineStatus) (act : QuarantineAction) (ev : Evidence)
        (t : Result (Unit {0})) (r : Result (Option String))
        → Refused (resolve_as c pol k target operator_id act ev tick others t r db)
    lost_resolve pol target act ev (err e) r = (tt, inl refl)
    lost_resolve pol target act ev (ok _) (err e) = (tt, inl refl)
    lost_resolve pol target act ev (ok _) (ok a) = rw read (
        if_held operator_id tick.now seen others db _
          (lost_resolve_until target act (record ev { action_id = a }) (days_for pol target)))

  -- Whoever has lost the claim changes nothing, also if it is lost after the call has read the record: where the record
  -- that the update finds, after whatever the others wrote, is not REPROCESSING, or is claimed by another operator, or
  -- its lease, which the record had when it was read, has run out by the time of the call, releasing and resolving it
  -- write nothing, and where they return they answer no; and where the claim was lost already in the record that was
  -- read, the call ends before it comes to its update.
  pub lost_claim_is_fenced :
      (others : Db → Db) (k operator_id : String) (ev : Evidence) (tick : Tick)
      (pol : RetentionPolicy) (target : QuarantineStatus) (a : QuarantineAction) (db : Db)
      (seen d : IngestionQuarantineRecord)
      → find_one k db ≡ some seen
      → find_one k (others db) ≡ some d
      → HasLost operator_id tick.now seen d
      → IsRefused operator_id tick.now seen others db
          (release_for_retry c k operator_id ev tick others db)
        × IsRefused operator_id tick.now seen others db
            (resolve c pol k target operator_id a ev tick others db)
  unfolding release_for_retry resolve
  lost_claim_is_fenced others k operator_id ev tick pol target a db seen d read found lost = (
    lost_release others k operator_id tick db seen d read found lost ev
        (bounded_action_id ev.action_id),
    lost_resolve others k operator_id tick db seen d read found lost pol target a ev _
        (bounded_action_id ev.action_id),
  )
