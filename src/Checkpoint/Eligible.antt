-- ===== src/Checkpoint/Eligible.antt =====
-- Which units `claim_unit` of src/infrastructure/ingestion/checkpoint_repository.py gives away, said without its query.
use reconciliation_ingestion.Prelude.{
  ℕ, ◌+◌, ◌≤◌, ◌<◌, String, Bool, true, false, ◌||◌, not, Option, none, some, same_key, is_some,
  ◌≡◌, ◌≢◌, refl, arith,
}
use reconciliation_ingestion.Result.{ok}
use reconciliation_ingestion.Checkpoint.Types.{IngestionCheckpoint, CheckpointStatus}
use reconciliation_ingestion.Checkpoint.Collection.{Collection, IsDocumentStore}
use reconciliation_ingestion.Checkpoint.ClaimQuery.{
  Tick, ClaimRequest, Interference, is_zero_limit, is_claimable, is_due, is_abandoned, claimed,
  not_false, at_most, below_limit, is_expired,
}
use reconciliation_ingestion.Checkpoint.Claim.{claim_unit}
use reconciliation_ingestion.Checkpoint.Fencing.{same_key_refl}
use reconciliation_ingestion.Checkpoint.Attempt.{claim_unit_wins}

-- A limit of attempts that is not used up.
pub data IsLeft : ℕ → Option ℕ → Type 0 where
  unlimited : (n : ℕ) → IsLeft n none
  limited : (n limit : ℕ) → n < limit → IsLeft n (some limit)

-- A retry time that has come, or none.
pub data HasCome : Option ℕ → ℕ → Type 0 where
  any_time : (now : ℕ) → HasCome none now
  since : (due now : ℕ) → due ≤ now → HasCome (some due) now

-- A claim that was started a timeout ago.
pub data HasTimedOut : Option ℕ → ℕ → ℕ → Type 0 where
  timed_out :
      (started timeout now : ℕ) → started + timeout ≤ now → HasTimedOut (some started) timeout now

-- A document that nobody works on.
pub data IsFree (r : ClaimRequest) (now : ℕ) (d : IngestionCheckpoint) : Type 0 where
  untouched : d.status ≡ CheckpointStatus.absent → IsFree r now d
  discovered : d.status ≡ CheckpointStatus.discovered → IsFree r now d
  between_units : d.status ≡ CheckpointStatus.completed → IsFree r now d
  retried :
      d.status ≡ CheckpointStatus.failed
      → d.retryable ≢ some false
      → HasCome d.next_retry_at now
      → IsFree r now d
  abandoned :
      d.status ≡ CheckpointStatus.processing
      → HasTimedOut d.started_at r.claim_timeout_seconds now
      → IsLeft d.attempt_count r.max_attempts
      → IsFree r now d

-- The document shows that a worker has this unit since then.
pub record IsTaken (unit_key claim_id : String) (now : ℕ) (d : IngestionCheckpoint) : Type 0 where
  pub status : d.status ≡ CheckpointStatus.processing
  pub unit : d.current_unit_key ≡ some unit_key
  pub claim : d.claim_id ≡ some claim_id
  pub started : d.started_at ≡ some now
  pub no_error : d.last_error ≡ none
  pub no_retry : d.next_retry_at ≡ none

below_limit-IsLeft : (n : ℕ) (o : Option ℕ) → IsLeft n o → below_limit n o ≡ true
below_limit-IsLeft n o (unlimited _) = refl
below_limit-IsLeft n o (limited _ limit h) = ground arith

is_expired-HasTimedOut :
    (s : Option ℕ) (timeout now : ℕ) → HasTimedOut s timeout now → is_expired s timeout now ≡ true
is_expired-HasTimedOut s timeout now (timed_out started _ _ h) = ground arith

come-HasCome : (o : Option ℕ) (now : ℕ) → HasCome o now → (not (is_some o) || at_most o now) ≡ true
come-HasCome o now (any_time _) = refl
come-HasCome o now (since due _ h) = ground arith

retryable-not_false : (o : Option Bool) → o ≢ some false → not_false o ≡ true
retryable-not_false none h = refl
retryable-not_false (some true) h = refl
retryable-not_false (some false) h = absurd (h refl)

or-right : (a : Bool) → (a || true) ≡ true
or-right true = refl
or-right false = refl

IsFree-is_claimable :
    (r : ClaimRequest) (now : ℕ) (d : IngestionCheckpoint)
    → d.last_completed_unit_key ≡ r.expected_previous_unit_key
    → IsFree r now d
    → is_claimable r now d ≡ true
unfolding is_claimable is_due is_abandoned
IsFree-is_claimable r now d p (untouched q) =
    rw (p, same_key_refl r.expected_previous_unit_key, q) refl
IsFree-is_claimable r now d p (discovered q) =
    rw (p, same_key_refl r.expected_previous_unit_key, q) refl
IsFree-is_claimable r now d p (between_units q) =
    rw (p, same_key_refl r.expected_previous_unit_key, q) refl
IsFree-is_claimable r now d p (retried q h t) =
    rw
      (
        p,
        same_key_refl r.expected_previous_unit_key,
        q,
        retryable-not_false d.retryable h,
        come-HasCome d.next_retry_at now t,
      )
      refl
IsFree-is_claimable r now d p (abandoned q t l) =
    rw
      (
        p,
        same_key_refl r.expected_previous_unit_key,
        q,
        is_expired-HasTimedOut d.started_at r.claim_timeout_seconds now t,
        below_limit-IsLeft d.attempt_count r.max_attempts l,
      )
      refl

IsTaken-claimed :
    (r : ClaimRequest) (tick : Tick) (seen d : IngestionCheckpoint)
    → IsTaken r.unit_key tick.claim_id tick.now (claimed r tick seen d)
unfolding claimed
IsTaken-claimed r tick seen d = record {
  status = refl;
  unit = refl;
  claim = refl;
  started = refl;
  no_error = refl;
  no_retry = refl;
}

module _ (c : Collection) (s : IsDocumentStore c) where
  open c use {Db, find_one}

  -- A free unit is won: where the stream's document, as this worker first reads it, has not completed the unit, the
  -- limit of attempts is valid, and the document, as the atomic update finds it after whatever the others wrote, has
  -- completed the unit that is expected and is free (it was never worked on, was discovered or completed, or failed
  -- with a retry that is allowed and due, or its claim has timed out with an attempt left), the answer is yes, and
  -- the stored document is the answer: in progress for this unit, since now and under the new claim.
  pub free_unit_is_won :
      (i : Interference Db) (r : ClaimRequest) (tick : Tick) (db : Db)
      (seen d : IngestionCheckpoint)
      → find_one r.stream db ≡ some seen
      → same_key seen.last_completed_unit_key (some r.unit_key) ≡ false
      → is_zero_limit r.max_attempts ≡ false
      → find_one r.stream (i.before_claim db) ≡ some d
      → d.last_completed_unit_key ≡ r.expected_previous_unit_key
      → IsFree r tick.now d
      → let (answer, db') = claim_unit c i r tick db in
        (e : IngestionCheckpoint) × (answer ≡ ok (e, true))
        × (find_one r.stream db' ≡ some e)
        × IsTaken r.unit_key tick.claim_id tick.now e
  free_unit_is_won i r tick db seen d p q l b expected free =
      let won =
        claim_unit_wins c s i r tick db seen d p q l b
          (IsFree-is_claimable r tick.now d expected free) in
      (claimed r tick seen d, won.0, won.1, IsTaken-claimed r tick seen d)
