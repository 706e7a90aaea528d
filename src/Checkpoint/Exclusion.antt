-- ===== src/Checkpoint/Exclusion.antt =====
-- Who wins `claim_unit` of src/infrastructure/ingestion/checkpoint_repository.py, and what a lost claim
-- does to the unit that another worker is processing.
use reconciliation_ingestion.Prelude.{
  ℕ, ◌+◌, String, true, false, ◌&&◌, Option, some, same_key, if◌then◌else◌, ◌≡◌, refl, ap, ◌∙◌, ◌<◌,
  arith, Bool-cases, inl, inr,
}
use reconciliation_ingestion.Result.{ok}
use reconciliation_ingestion.Checkpoint.Types.{IngestionCheckpoint, CheckpointStatus, is_processing}
use reconciliation_ingestion.Checkpoint.Collection.{Collection, IsDocumentStore}
use reconciliation_ingestion.Checkpoint.ClaimQuery.{
  Tick, ClaimRequest, Interference, is_zero_limit, reaches_limit, is_expired, is_claimable,
  is_abandoned, is_due, claimed, exhausted, is_stale,
}
use reconciliation_ingestion.Checkpoint.Claim.{block_exhausted, claim_seen, claim_unit}
use reconciliation_ingestion.Checkpoint.Updates.{is_held}
use reconciliation_ingestion.Checkpoint.Fencing.{
  Ending, IsAllowed, end_unit, outsider_is_fenced, same_key_refl,
}
use reconciliation_ingestion.Checkpoint.Attempt.{
  &&-false, reaches_limit→below_limit, IsRefused, exhausted-stream, claim_unit-seen, claim_seen-try,
  try_claim-miss, claim_unit_wins, refuse-answer, refuse-found,
}

module _ (c : Collection) (s : IsDocumentStore c) where
  open c use {Db, find_one, update_one}

  live-is_claimable :
      (r : ClaimRequest) (now : ℕ) (d : IngestionCheckpoint)
      → d.status ≡ CheckpointStatus.processing
      → is_expired d.started_at r.claim_timeout_seconds now ≡ false
      → is_claimable r now d ≡ false
  unfolding is_claimable is_due is_abandoned
  live-is_claimable r now d p q = rw p (rw q (&&-false _))

  exhausted-is_claimable :
      (r : ClaimRequest) (now : ℕ) (d : IngestionCheckpoint)
      → d.status ≡ CheckpointStatus.processing
      → reaches_limit d.attempt_count r.max_attempts ≡ true
      → is_claimable r now d ≡ false
  unfolding is_claimable is_due is_abandoned
  exhausted-is_claimable r now d p q =
      rw (p, reaches_limit→below_limit d.attempt_count r.max_attempts q)
        (ap (λ b. same_key d.last_completed_unit_key r.expected_previous_unit_key && b) (&&-false _)
          ∙ &&-false _)

  -- A live claim is not stolen: where the stream has its document, and the atomic update finds it being
  -- processed, with the claim timeout not passed since it was started, `claim_unit` does not answer yes,
  -- whatever the other workers write.
  pub live_claim_is_kept :
      (i : Interference Db) (r : ClaimRequest) (tick : Tick) (db : Db)
      (seen d : IngestionCheckpoint)
      → find_one r.stream db ≡ some seen
      → find_one r.stream (i.before_claim db) ≡ some d
      → d.status ≡ CheckpointStatus.processing
      → is_expired d.started_at r.claim_timeout_seconds tick.now ≡ false
      → IsRefused (claim_unit c i r tick db).0
  unfolding claim_seen
  live_claim_is_kept i r tick db seen d p b q l =
      rw (claim_unit-seen c s i r tick db seen p)
        (elim (Bool-cases (same_key seen.last_completed_unit_key (some r.unit_key))) [
          | inl e ↦ rw e refl
          | inr e ↦ rw e (elim (Bool-cases (is_zero_limit r.max_attempts)) [
            | inl z ↦ rw z tt
            | inr z ↦ rw z (
                rw (try_claim-miss c s i r tick db seen d b (live-is_claimable r tick.now d q l))
                  (refuse-answer c s i r tick (i.before_claim db)))
          ])
        ])

  is_stale-own :
      (d : IngestionCheckpoint) → d.status ≡ CheckpointStatus.processing → is_stale d d ≡ true
  unfolding is_stale
  is_stale-own d p = rw (p, same_key_refl d.current_unit_key) refl

  block_exhausted-stored :
      (i : Interference Db) (r : ClaimRequest) (tick : Tick) (db : Db) (d : IngestionCheckpoint)
      → find_one r.stream (i.before_block db) ≡ some d
      → d.status ≡ CheckpointStatus.processing
      → reaches_limit d.attempt_count r.max_attempts ≡ true
      → find_one r.stream (block_exhausted c i r tick d db) ≡ some (exhausted tick d d)
  unfolding block_exhausted
  block_exhausted-stored i r tick db d p w l =
      ap
        (λ b. find_one r.stream (
          if b
          then (update_one r.stream (is_stale d) (exhausted tick d) (i.before_block db)).1
          else db))
        (ap (λ t. is_processing t && reaches_limit d.attempt_count r.max_attempts) w ∙ l)
      ∙ s.update_hit r.stream (is_stale d) (exhausted tick d) (i.before_block db) d
          (exhausted-stream tick d) p (is_stale-own d w)

  -- A claim on its last attempt is not safe: where the stream's document is being processed and has used
  -- all the attempts that another worker's `claim_unit` allows, for a unit that is not the last
  -- completed one, and nobody else writes meanwhile, that call is refused but blocks the unit, however
  -- recent the claim is, and nobody holds any unit then.
  pub last_attempt_is_blocked :
      (i : Interference Db) (r : ClaimRequest) (tick : Tick) (db : Db) (d : IngestionCheckpoint)
      (claim_id : Option String) (unit_key : String)
      → ((x : Db) → (i.before_claim x ≡ x) × (i.before_reread x ≡ x) × (i.before_block x ≡ x))
      → find_one r.stream db ≡ some d
      → same_key d.last_completed_unit_key (some r.unit_key) ≡ false
      → is_zero_limit r.max_attempts ≡ false
      → d.status ≡ CheckpointStatus.processing
      → reaches_limit d.attempt_count r.max_attempts ≡ true
      → let (answer, db') = claim_unit c i r tick db in
        (answer ≡ ok (d, false))
        × (find_one r.stream db' ≡ some (exhausted tick d d))
        × (is_held claim_id unit_key (exhausted tick d d) ≡ false)
  unfolding is_held exhausted
  last_attempt_is_blocked i r tick db d claim_id unit_key alone p q z w l =
      rw
        (claim_unit-seen c s i r tick db d p
          ∙ claim_seen-try c s i r tick db d q z
          ∙ try_claim-miss c s i r tick db d d (ap (find_one r.stream) (alone db).0 ∙ p)
              (exhausted-is_claimable r tick.now d w l)
          ∙ refuse-found c s i r tick (i.before_claim db) d
              (ap (find_one r.stream) ((alone (i.before_claim db)).1 ∙ (alone db).0) ∙ p))
        (
          refl,
          block_exhausted-stored i r tick (i.before_reread (i.before_claim db)) d
              (ap (find_one r.stream) (
                  (alone (i.before_reread (i.before_claim db))).2
                  ∙ (alone (i.before_claim db)).1
                  ∙ (alone db).0)
                ∙ p)
              w l,
          &&-false _,
        )

  -- A worker whose claim was taken over cannot end the unit: once another worker has won the stream's
  -- claim with an identifier of its own, the first one's completing, failing with a valid limit of
  -- attempts, or releasing of any unit is refused and changes nothing.
  pub superseded_is_fenced :
      (i : Interference Db) (r : ClaimRequest) (tick later : Tick) (db : Db)
      (seen d h : IngestionCheckpoint) (unit_key : String) (e : Ending)
      → find_one r.stream db ≡ some seen
      → same_key seen.last_completed_unit_key (some r.unit_key) ≡ false
      → is_zero_limit r.max_attempts ≡ false
      → find_one r.stream (i.before_claim db) ≡ some d
      → is_claimable r tick.now d ≡ true
      → h.stream ≡ r.stream
      → same_key (some tick.claim_id) h.claim_id ≡ false
      → IsAllowed e
      → let db' = (claim_unit c i r tick db).1 in
        end_unit c h unit_key e later db' ≡ (ok false, db')
  unfolding is_held claimed
  superseded_is_fenced i r tick later db seen d h unit_key e p q l b w same other a =
      let db' = (claim_unit c i r tick db).1 in
      outsider_is_fenced c s h (claimed r tick seen d) unit_key e later db' a
        (ap (λ k. find_one k db') same ∙ (claim_unit_wins c s i r tick db seen d p q l b w).1)
        (rw other (&&-false (same_key (some r.unit_key) (some unit_key))))

  -- Of two workers that race for a stream one wins. Where the first one's claim can be won, by a valid
  -- limit of attempts, it is won; and the second one's claim of the stream, with nobody writing in
  -- between, is refused as long as its own claim timeout has not passed since the first one started.
  pub racing_claims_one_winner :
      (i j : Interference Db) (r q : ClaimRequest) (tick later : Tick) (db : Db)
      (seen d : IngestionCheckpoint)
      → find_one r.stream db ≡ some seen
      → same_key seen.last_completed_unit_key (some r.unit_key) ≡ false
      → is_zero_limit r.max_attempts ≡ false
      → find_one r.stream (i.before_claim db) ≡ some d
      → is_claimable r tick.now d ≡ true
      → q.stream ≡ r.stream
      → ((x : Db) → j.before_claim x ≡ x)
      → later.now < tick.now + q.claim_timeout_seconds
      → let (first, db') = claim_unit c i r tick db in
        (first ≡ ok (claimed r tick seen d, true)) × IsRefused (claim_unit c j q later db').0
  unfolding claimed
  racing_claims_one_winner i j r q tick later db seen d p m l b w same alone early =
      let db' = (claim_unit c i r tick db).1 in
      let won = claim_unit_wins c s i r tick db seen d p m l b w in
      let stored = ap (λ k. find_one k db') same ∙ won.1 in
      (
        won.0,
        live_claim_is_kept j q later db' (claimed r tick seen d) (claimed r tick seen d) stored
            (ap (find_one q.stream) (alone db') ∙ stored) refl (ground arith),
      )
