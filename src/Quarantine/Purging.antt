-- ===== src/Quarantine/Purging.antt =====
-- What `purge_expired`, `find_blockers` and `has_unresolved_blockers` of
-- src/infrastructure/ingestion/quarantine_repository.py promise.
use text.Mathlib.TextPositions.{eq_refl}
use reconciliation_ingestion.Prelude.{
  ℕ, ◌≤◌, ◌<◌, refl, ap, any, leb, same_key, Option, Bool-cases, str_eq, String, Bool, true, false,
  ◌&&◌, none, some, List, [], ◌∷◌, length, All, ◌≡◌, ◌≢◌, sym, ◌∙◌, arith, inl, inr, subst, ltb,
  Option-cases, if◌then◌else◌,
}
use mathlib.Core.Option.{some_inj}
use mathlib.Core.Bool.{true≢false}
use reconciliation_ingestion.Result.{Result, IsOk}
use reconciliation_ingestion.Quarantine.Types.{
  IngestionQuarantineRecord, QuarantineStatus, is_terminal,
}
use reconciliation_ingestion.Quarantine.Collection.{
  Collection, IsDocumentStore, created_at_id, retention_until_id,
}
use reconciliation_ingestion.Quarantine.History.{&&-left}
use reconciliation_ingestion.Quarantine.Queries.{
  is_purgeable, is_blocker, is_unresolved_conflict, has_error, conflict_code, delete_all,
  purge_expired, find_blockers, has_unresolved_blockers,
}
use reconciliation_ingestion.Quarantine.Blocking.{
  IsBlocking, IsListed, no_record, not_blocking, listed, IsBlocking-is_blocker, &&-right,
  IsBlocking-of_is_blocker,
}

-- A record that is not to be removed yet.
pub data IsRetained (now : ℕ) (d : IngestionQuarantineRecord) : Type 0 where
  waiting : d.status ≡ QuarantineStatus.pending → IsRetained now d
  worked_on : d.status ≡ QuarantineStatus.reprocessing → IsRetained now d
  undated : d.retention_until ≡ none → IsRetained now d
  until : (limit : ℕ) → d.retention_until ≡ some limit → now < limit → IsRetained now d

and-false : (a : Bool) → (a && false) ≡ false
and-false true = refl
and-false false = refl

not_yet : (limit now : ℕ) → now < limit → leb limit now ≡ false
not_yet limit now h = ground arith

IsRetained-is_purgeable :
    (now : ℕ) (d : IngestionQuarantineRecord) → IsRetained now d → is_purgeable now d ≡ false
unfolding is_purgeable
IsRetained-is_purgeable now d (waiting p) = rw p refl
IsRetained-is_purgeable now d (worked_on p) = rw p refl
IsRetained-is_purgeable now d (undated p) = rw p (and-false (is_terminal d.status))
IsRetained-is_purgeable now d (until limit p h) =
    rw (p, not_yet limit now h) (and-false (is_terminal d.status))

module _ (c : Collection) (s : IsDocumentStore c) where
  open c use {Db, find_one, find, find_first, delete_one}

  delete_all-bound :
      (ds : List IngestionQuarantineRecord) (db : Db) → (delete_all c ds db).0 ≤ length ds
  delete_all-bound [] db = omega arith
  delete_all-bound (d ∷ ds) db =
      omega (arith, s.delete_count d.id db, delete_all-bound ds (delete_one d.id db).1)

  -- A record that is not among those to delete is kept.
  delete_all-kept :
      (k : String) (d : IngestionQuarantineRecord) (q : IngestionQuarantineRecord → Bool)
      (ds : List IngestionQuarantineRecord) (start db : Db)
      → q d ≡ false
      → find_one k start ≡ some d
      → All (λ e. (q e ≡ true) × (find_one e.id start ≡ some e)) ds
      → find_one k db ≡ some d
      → find_one k (delete_all c ds db).1 ≡ some d
  delete_all-kept k d q [] start db n p a h = h
  delete_all-kept k d q (e ∷ ds) start db n p a h =
      delete_all-kept k d q ds start (delete_one e.id db).1 n p a.1
        (s.delete_other e.id k db other ∙ h)
    where
      other : e.id ≢ k
      other r = true≢false (
          subst (λ u. true ≡ u) n
            (subst (λ x. true ≡ q x)
              (some_inj.0 (sym a.0.1 ∙ subst (λ j. find_one j start ≡ some d) (sym r) p))
              (sym a.0.0)))

  if-purge :
      (b : Bool) (x y : Result ℕ × Db) (P : Result ℕ × Db → Type 0)
      → P x
      → P y
      → P (if b then x else y)
  if-purge true x y P h g = h
  if-purge false x y P h g = g

  -- A record that the query does not match.
  unmatched_is_kept :
      (now limit : ℕ) (k : String) (db : Db) (d : IngestionQuarantineRecord)
      → find_one k db ≡ some d
      → is_purgeable now d ≡ false
      → (find_one k (purge_expired c now limit db).1 ≡ some d)
        × IsOk (λ n. n ≤ limit) (purge_expired c now limit db).0
  unfolding purge_expired
  unmatched_is_kept now limit k db d p h =
      let found = find (is_purgeable now) retention_until_id (some limit) db in
      if-purge (ltb limit 1) _ _ (λ x. (find_one k x.1 ≡ some d) × IsOk (λ n. n ≤ limit) x.0)
        (p, tt)
        (
          delete_all-kept k d (is_purgeable now) found db db h p
              (s.find_matches (is_purgeable now) retention_until_id (some limit) db) p,
          omega (
            arith,
            delete_all-bound found db,
            s.find_bounded (is_purgeable now) retention_until_id limit db,
          ),
        )

  -- Purging removes expired evidence only: a record that is PENDING or REPROCESSING, or has no end of its retention,
  -- or whose retention ends after that time, is stored as before, and no more records are removed than the limit.
  pub purge_keeps_evidence :
      (now limit : ℕ) (k : String) (db : Db) (d : IngestionQuarantineRecord)
      → find_one k db ≡ some d
      → IsRetained now d
      → (find_one k (purge_expired c now limit db).1 ≡ some d)
        × IsOk (λ n. n ≤ limit) (purge_expired c now limit db).0
  purge_keeps_evidence now limit k db d p h =
      unmatched_is_kept now limit k db d p (IsRetained-is_purgeable now d h)

  no_conflict :
      (key : String) (db : Db) (ds : List IngestionQuarantineRecord)
      → find_first (is_unresolved_conflict key) db ≡ none
      → All (λ d. (is_blocker key d ≡ true) × (find_one d.id db ≡ some d)) ds
      → All (λ d. has_error conflict_code d ≡ false) ds
  unfolding is_unresolved_conflict
  no_conflict key db [] h a = tt
  no_conflict key db (d ∷ ds) h a = (
    right-false _ _ a.0.0 (s.find_first_none (is_unresolved_conflict key) db d h a.0.1),
    no_conflict key db ds h a.1,
  )
    where
      right-false : (x y : Bool) → x ≡ true → (x && y) ≡ false → y ≡ false
      right-false x y p q = ground arith

  any-false :
      (r : IngestionQuarantineRecord → Bool) (ds : List IngestionQuarantineRecord)
      → All (λ d. r d ≡ false) ds
      → any r ds ≡ false
  any-false r [] h = refl
  any-false r (d ∷ ds) h = rw (h.0, any-false r ds h.1) refl

  blocked_by_conflict :
      (key : String) (db : Db) (d : IngestionQuarantineRecord)
      → find_first (is_unresolved_conflict key) db ≡ some d
      → any (has_error conflict_code) (find_blockers c key db) ≡ true
  unfolding find_blockers is_unresolved_conflict
  blocked_by_conflict key db d m =
      let (both, stored) = s.find_first_match (is_unresolved_conflict key) db d m in
      elim (Bool-cases
        (any (has_error conflict_code) (find (is_blocker key) created_at_id none db))) [
          | inl e ↦ e
          | inr e ↦ absurd (
              true≢false (
                sym (&&-right (is_blocker key d) (has_error conflict_code d) both)
                ∙ s.find_complete (is_blocker key) (has_error conflict_code) created_at_id db d
                    stored (&&-left (is_blocker key d) (has_error conflict_code d) both) e))
        ]

  blocking :
      (key : String) (ds : List IngestionQuarantineRecord) (db : Db)
      → All (λ d. (is_blocker key d ≡ true) × (find_one d.id db ≡ some d)) ds
      → All (IsBlocking key) ds
  blocking key [] db h = tt
  blocking key (d ∷ ds) db h = (IsBlocking-of_is_blocker key d h.0.0, blocking key ds db h.1)

  found-IsListed :
      (key : String) (db : Db) (d : IngestionQuarantineRecord)
      → find_one d.id db ≡ some d
      → IsListed key (find_blockers c key db) (some d)
  unfolding find_blockers
  found-IsListed key db d p = elim (Bool-cases (is_blocker key d)) [
    | inl e ↦ listed d (elim (Bool-cases (any (λ x. str_eq x.id d.id) (find_blockers c key db))) [
      | inl t ↦ t
      | inr f ↦ absurd (
          true≢false (
            sym (eq_refl d.id)
            ∙ s.find_complete (is_blocker key) (λ x. str_eq x.id d.id) created_at_id db d p e f))
    ])
    | inr e ↦ not_blocking d λ b. true≢false (sym (IsBlocking-is_blocker key d b) ∙ e)
  ]

  each-IsListed :
      (key k : String) (db : Db) (o : Option IngestionQuarantineRecord)
      → find_one k db ≡ o
      → IsListed key (find_blockers c key db) o
  each-IsListed key k db none p = no_record
  each-IsListed key k db (some d) p =
      found-IsListed key db d (ap (λ j. find_one j db) (s.find_id k db d p) ∙ p)

  -- The answer is the one that the list gives: a unit has unresolved blockers exactly where some record of the list
  -- of its blockers has the error code CONFLICTING_DUPLICATE, and every record of that list is one of this unit that
  -- is PENDING or REPROCESSING; and the list misses none: whatever record stands under an identifier is in the list
  -- or does not block the unit.
  pub conflicts_block :
      (key k : String) (db : Db)
      → (has_unresolved_blockers c key db
          ≡ any
              (λ d. any (λ e. same_key e.error_code (some "CONFLICTING_DUPLICATE")) d.errors)
              (find_blockers c key db))
        × All (IsBlocking key) (find_blockers c key db)
        × IsListed key (find_blockers c key db) (find_one k db)
  unfolding has_unresolved_blockers find_blockers
  conflicts_block key k db = (
    elim (Option-cases (find_first (is_unresolved_conflict key) db)) [
      | inl e ↦ rw e (
          sym (
            any-false (has_error conflict_code) (find (is_blocker key) created_at_id none db) (
              no_conflict key db (find (is_blocker key) created_at_id none db) e
                (s.find_matches (is_blocker key) created_at_id none db))))
      | inr m ↦ rw (m.1) (sym (blocked_by_conflict key db m.0 m.1))
    ],
    blocking key (find (is_blocker key) created_at_id none db) db
        (s.find_matches (is_blocker key) created_at_id none db),
    each-IsListed key k db (find_one k db) refl,
  )
