-- ===== src/Checkpoint/Fencing.antt =====
-- The claim of src/infrastructure/ingestion/checkpoint_repository.py fences its holder: who holds the claim
-- may end the unit, and nobody else.
use text.Mathlib.TextEquality.{eq_iff}
use text.Mathlib.TextPositions.{eq_refl}
use reconciliation_ingestion.Prelude.{
  String, Bool, true, false, ◌&&◌, str_eq, ◌≢◌, ◌⊎◌, List, [], ◌∷◌, ◌++◌, Option, none, some,
  same_key, if◌then◌else◌, ◌≡◌, refl, ap, ◌∙◌, arith, length, length-append, Bool-cases, inl, inr,
}
use reconciliation_ingestion.Result.{Result, ok}
use reconciliation_ingestion.Checkpoint.Types.{
  IngestionCheckpoint, CheckpointStatus, HighWaterMark, is_processing,
}
use reconciliation_ingestion.Checkpoint.Collection.{Collection, IsDocumentStore, KeepsStream}
use reconciliation_ingestion.Checkpoint.ClaimQuery.{Tick, is_zero_limit}
use reconciliation_ingestion.Checkpoint.Updates.{
  Failure, is_held, blocks, block, retry_later, failed_with, released, completed_with,
}
use reconciliation_ingestion.Checkpoint.Transitions.{
  mark_failed, release_for_review, mark_completed,
}

-- A transition that appends an event changes the document.
appended-≢ : {A : Type 0} (x : A) (xs : List A) → ¬ (xs ++ (x ∷ []) ≡ xs)
appended-≢ x xs p = omega (arith, ap length p, length-append xs (x ∷ []))

pub same_key_refl : (k : Option String) → same_key k k ≡ true
same_key_refl none = refl
same_key_refl (some s) = eq_refl s

-- What a holder may do to end its unit.
pub data Ending : Type 0 where
  complete : Option String → Option HighWaterMark → Ending
  fail : Failure → Ending
  release : String → Ending

-- The limit that `mark_failed` takes.
abbrev pub IsAllowed : Ending → Type 0
IsAllowed (fail f) = is_zero_limit f.max_attempts ≡ false
IsAllowed _ = Unit {0}

-- The status that a stored document then has.
abbrev pub ended_status : IngestionCheckpoint → Ending → CheckpointStatus
ended_status h (complete cursor mark) = CheckpointStatus.completed
ended_status h (fail f) = if blocks h f then CheckpointStatus.blocked else CheckpointStatus.failed
ended_status h (release reason) = CheckpointStatus.discovered

module _ (c : Collection) where
  open c use {Db, find_one, update_one}

  -- The call that a holder `h` of a unit makes.
  unfoldable pub end_unit : IngestionCheckpoint → String → Ending → Tick → Db → Result Bool × Db
  end_unit h unit_key (complete cursor mark) tick db =
      let (modified, db') = mark_completed c h unit_key cursor mark tick db in (ok modified, db')
  end_unit h unit_key (fail f) tick db = mark_failed c h unit_key f tick db
  end_unit h unit_key (release reason) tick db =
      let (modified, db') = release_for_review c h unit_key reason tick db in (ok modified, db')

-- The update that the call makes.
unfoldable pub ending :
    IngestionCheckpoint → String → Ending → Tick → IngestionCheckpoint → IngestionCheckpoint
ending h unit_key (complete cursor mark) tick = completed_with h unit_key cursor mark tick
ending h unit_key (fail f) tick = failed_with h unit_key f tick
ending h unit_key (release reason) tick = released h unit_key reason tick

ending-status :
    (h : IngestionCheckpoint) (unit_key : String) (e : Ending) (tick : Tick)
    (d : IngestionCheckpoint)
    → (ending h unit_key e tick d).status ≡ ended_status h e
unfolding ending completed_with failed_with released block retry_later
ending-status h unit_key (complete cursor mark) tick d = refl
ending-status h unit_key (fail f) tick d = elim (Bool-cases (blocks h f)) [
  | inl p ↦ rw p refl
  | inr p ↦ rw p refl
]
ending-status h unit_key (release reason) tick d = refl

pub ending-stream :
    (h : IngestionCheckpoint) (unit_key : String) (e : Ending) (tick : Tick)
    → KeepsStream (ending h unit_key e tick)
unfolding ending completed_with failed_with released block retry_later
ending-stream h unit_key (complete cursor mark) tick d = refl
ending-stream h unit_key (fail f) tick d = elim (Bool-cases (blocks h f)) [
  | inl p ↦ rw p refl
  | inr p ↦ rw p refl
]
ending-stream h unit_key (release reason) tick d = refl

ended_status-is_processing :
    (h : IngestionCheckpoint) (e : Ending) → is_processing (ended_status h e) ≡ false
ended_status-is_processing h (complete cursor mark) = refl
ended_status-is_processing h (fail f) = elim (Bool-cases (blocks h f)) [
  | inl p ↦ rw p refl
  | inr p ↦ rw p refl
]
ended_status-is_processing h (release reason) = refl

ending-≢ :
    (h : IngestionCheckpoint) (unit_key : String) (e : Ending) (tick : Tick)
    (d : IngestionCheckpoint)
    → is_processing d.status ≡ true
    → ¬ (ending h unit_key e tick d ≡ d)
ending-≢ h unit_key e tick d p q = cc (
  ended_status-is_processing h e,
  ending-status h unit_key e tick d,
  ap (λ x. is_processing x.status) q,
  p,
)

is_held-status :
    (k : Option String) (u : String) (d : IngestionCheckpoint)
    → is_held k u d ≡ true
    → is_processing d.status ≡ true
unfolding is_held
is_held-status k u d h = ground arith

-- What tells that a worker `h` does not hold the unit.
pub data IsStranger (h : IngestionCheckpoint) (unit_key : String) (d : IngestionCheckpoint)
    : Type 0 where
  idle : d.status ≢ CheckpointStatus.processing → IsStranger h unit_key d
  other_unit : d.current_unit_key ≢ some unit_key → IsStranger h unit_key d
  other_claim : d.claim_id ≢ h.claim_id → IsStranger h unit_key d

same_key-≢ : (a b : Option String) → a ≢ b → same_key a b ≡ false
same_key-≢ none none n = absurd (n refl)
same_key-≢ none (some b) n = refl
same_key-≢ (some a) none n = refl
same_key-≢ (some a) (some b) n = elim (Bool-cases (str_eq a b)) [
  | inl e ↦ absurd (n (ap some ((eq_iff a b).0 e)))
  | inr e ↦ e
]

is_processing-≢ : (s : CheckpointStatus) → s ≢ CheckpointStatus.processing → is_processing s ≡ false
is_processing-≢ CheckpointStatus.absent n = refl
is_processing-≢ CheckpointStatus.discovered n = refl
is_processing-≢ CheckpointStatus.processing n = absurd (n refl)
is_processing-≢ CheckpointStatus.completed n = refl
is_processing-≢ CheckpointStatus.failed n = refl
is_processing-≢ CheckpointStatus.blocked n = refl

none_of_three : (a b c : Bool) → (a ≡ false) ⊎ ((b ≡ false) ⊎ (c ≡ false)) → (a && (b && c)) ≡ false
none_of_three a b c h = ground arith

IsStranger-is_held :
    (h d : IngestionCheckpoint) (unit_key : String)
    → IsStranger h unit_key d
    → is_held h.claim_id unit_key d ≡ false
unfolding is_held
IsStranger-is_held h d unit_key (idle n) =
    none_of_three _ (is_processing d.status) _ (inr (inl (is_processing-≢ d.status n)))
IsStranger-is_held h d unit_key (other_unit n) =
    none_of_three _ (is_processing d.status) _
      (inl (same_key-≢ d.current_unit_key (some unit_key) n))
IsStranger-is_held h d unit_key (other_claim n) =
    none_of_three _ (is_processing d.status) _ (inr (inr (same_key-≢ d.claim_id h.claim_id n)))

module _ (c : Collection) (s : IsDocumentStore c) where
  open c use {Db, find_one, update_one}

  pub end_unit-eq :
      (h : IngestionCheckpoint) (unit_key : String) (e : Ending) (tick : Tick) (db : Db)
      → IsAllowed e
      → let u = update_one h.stream (is_held h.claim_id unit_key) (ending h unit_key e tick) db in
        end_unit c h unit_key e tick db ≡ (ok u.0, u.1)
  unfolding end_unit ending mark_completed mark_failed release_for_review
  end_unit-eq h unit_key (complete cursor mark) tick db a = refl
  end_unit-eq h unit_key (fail f) tick db a = rw a refl
  end_unit-eq h unit_key (release reason) tick db a = refl

  -- The worker that holds a unit can end it: where the stored document is the one being processed for
  -- this unit under its claim, completing the unit, failing it with a valid limit of attempts, or
  -- releasing it succeeds, and the stored status is then COMPLETED, or FAILED or BLOCKED as the failure
  -- asks, or DISCOVERED.
  pub holder_ends :
      (h d : IngestionCheckpoint) (unit_key : String) (e : Ending) (tick : Tick) (db : Db)
      → IsAllowed e
      → find_one h.stream db ≡ some d
      → is_held h.claim_id unit_key d ≡ true
      → let (answer, db') = end_unit c h unit_key e tick db in
        (answer ≡ ok true)
        × ((d' : IngestionCheckpoint) × (find_one h.stream db' ≡ some d')
            × (d'.status ≡ ended_status h e))
  holder_ends h d unit_key e tick db a p q = rw (end_unit-eq h unit_key e tick db a) (
    ap ok (
        s.update_modified h.stream (is_held h.claim_id unit_key) (ending h unit_key e tick) db d
          (ending-stream h unit_key e tick) p q
          (ending-≢ h unit_key e tick d (is_held-status h.claim_id unit_key d q))),
    (
      ending h unit_key e tick d,
      s.update_hit h.stream (is_held h.claim_id unit_key) (ending h unit_key e tick) db d
          (ending-stream h unit_key e tick) p q,
      ending-status h unit_key e tick d,
    ),
  )

  -- A call whose query the stored document does not match.
  pub outsider_is_fenced :
      (h d : IngestionCheckpoint) (unit_key : String) (e : Ending) (tick : Tick) (db : Db)
      → IsAllowed e
      → find_one h.stream db ≡ some d
      → is_held h.claim_id unit_key d ≡ false
      → end_unit c h unit_key e tick db ≡ (ok false, db)
  outsider_is_fenced h d unit_key e tick db a p q =
      end_unit-eq h unit_key e tick db a
      ∙ ap (λ u. (ok u.0, u.1))
          (s.update_miss h.stream (is_held h.claim_id unit_key) (ending h unit_key e tick) db d p q)

  -- Whoever does not hold the unit changes nothing: where the stored document is not being processed, or is at
  -- another unit, or is under another claim than the caller's, completing the unit, failing it with a valid limit of
  -- attempts, or releasing it answers no and leaves the database as it was.
  pub stranger_is_fenced :
      (h d : IngestionCheckpoint) (unit_key : String) (e : Ending) (tick : Tick) (db : Db)
      → IsAllowed e
      → find_one h.stream db ≡ some d
      → IsStranger h unit_key d
      → end_unit c h unit_key e tick db ≡ (ok false, db)
  stranger_is_fenced h d unit_key e tick db a p n =
      outsider_is_fenced h d unit_key e tick db a p (IsStranger-is_held h d unit_key n)
