-- ===== src/Checkpoint/Attempt.antt =====
-- The course of `claim_unit` of src/infrastructure/ingestion/checkpoint_repository.py on a stream that has its
-- document, call by call.
use reconciliation_ingestion.Prelude.{
  ℕ, Bool, true, false, ◌&&◌, Option, none, some, same_key, ◌≡◌, refl, ap, ◌∙◌, arith,
}
use reconciliation_ingestion.Result.{Result, ok, IsOk, ◌>>=◌}
use reconciliation_ingestion.Checkpoint.Types.{IngestionCheckpoint}
use reconciliation_ingestion.Checkpoint.Collection.{Collection, IsDocumentStore, KeepsStream}
use reconciliation_ingestion.Checkpoint.ClaimQuery.{
  Tick, ClaimRequest, Interference, is_zero_limit, reaches_limit, below_limit, is_claimable,
  claimed, exhausted, new_checkpoint,
}
use reconciliation_ingestion.Checkpoint.Claim.{
  require, found_or_raise, block_exhausted, create_or_get, found_or_create, won_or_refused, refuse,
  try_claim, claim_seen, claim_unit,
}

-- The answer is no, where there is one.
abbrev pub IsRefused : Result (IngestionCheckpoint × Bool) → Type 0
IsRefused = IsOk (λ x. x.1 ≡ false)

pub &&-false : (b : Bool) → (b && false) ≡ false
&&-false true = refl
&&-false false = refl

pub reaches_limit→below_limit :
    (n : ℕ) (o : Option ℕ) → reaches_limit n o ≡ true → below_limit n o ≡ false
reaches_limit→below_limit n none p = cc p
reaches_limit→below_limit n (some limit) p = ground arith

pub claimed-stream :
    (r : ClaimRequest) (tick : Tick) (seen : IngestionCheckpoint)
    → KeepsStream (claimed r tick seen)
unfolding claimed
claimed-stream r tick seen d = refl

pub exhausted-stream : (tick : Tick) (e : IngestionCheckpoint) → KeepsStream (exhausted tick e)
unfolding exhausted
exhausted-stream tick e d = refl

module _ (c : Collection) (s : IsDocumentStore c) where
  open c use {Db, find_one, update_one}

  -- On a stream that has its document, `claim_unit` goes on with that document.
  pub claim_unit-seen :
      (i : Interference Db) (r : ClaimRequest) (tick : Tick) (db : Db) (seen : IngestionCheckpoint)
      → find_one r.stream db ≡ some seen
      → claim_unit c i r tick db ≡ claim_seen c i r tick (seen, false) db
  unfolding claim_unit create_or_get new_checkpoint ◌>>=◌
  claim_unit-seen i r tick db seen p =
      ap (λ o. (found_or_create c i (new_checkpoint r tick.now) o >>= claim_seen c i r tick) db) p

  pub claim_seen-try :
      (i : Interference Db) (r : ClaimRequest) (tick : Tick) (db : Db) (seen : IngestionCheckpoint)
      → same_key seen.last_completed_unit_key (some r.unit_key) ≡ false
      → is_zero_limit r.max_attempts ≡ false
      → claim_seen c i r tick (seen, false) db ≡ try_claim c i r tick seen db
  unfolding claim_seen
  claim_seen-try i r tick db seen p q = rw p (rw q refl)

  pub try_claim-hit :
      (i : Interference Db) (r : ClaimRequest) (tick : Tick) (db : Db)
      (seen d : IngestionCheckpoint)
      → find_one r.stream (i.before_claim db) ≡ some d
      → is_claimable r tick.now d ≡ true
      → try_claim c i r tick seen db ≡ (
        ok (claimed r tick seen d, true),
        (update_one r.stream (is_claimable r tick.now) (claimed r tick seen) (i.before_claim db)).1,
      )
  unfolding try_claim
  try_claim-hit i r tick db seen d b w = ap (won_or_refused c i r tick) (
      s.claim_hit r.stream (is_claimable r tick.now) (claimed r tick seen) (i.before_claim db) d b
        w)

  pub try_claim-miss :
      (i : Interference Db) (r : ClaimRequest) (tick : Tick) (db : Db)
      (seen d : IngestionCheckpoint)
      → find_one r.stream (i.before_claim db) ≡ some d
      → is_claimable r tick.now d ≡ false
      → try_claim c i r tick seen db ≡ refuse c i r tick (i.before_claim db)
  unfolding try_claim
  try_claim-miss i r tick db seen d b w = ap (won_or_refused c i r tick) (
      s.claim_miss r.stream (is_claimable r tick.now) (claimed r tick seen) (i.before_claim db) d b
        w)

  -- A unit that can be claimed is won: where the limit of attempts is valid, the stream's document, as
  -- this worker first reads it, has not completed the unit, and, as the atomic update finds it after
  -- whatever the others wrote in between, it can be claimed, the answer is the claimed document, and
  -- that is the one stored.
  pub claim_unit_wins :
      (i : Interference Db) (r : ClaimRequest) (tick : Tick) (db : Db)
      (seen d : IngestionCheckpoint)
      → find_one r.stream db ≡ some seen
      → same_key seen.last_completed_unit_key (some r.unit_key) ≡ false
      → is_zero_limit r.max_attempts ≡ false
      → find_one r.stream (i.before_claim db) ≡ some d
      → is_claimable r tick.now d ≡ true
      → let (answer, db') = claim_unit c i r tick db in
        (answer ≡ ok (claimed r tick seen d, true))
        × (find_one r.stream db' ≡ some (claimed r tick seen d))
  claim_unit_wins i r tick db seen d p q l b w =
      rw
        (claim_unit-seen i r tick db seen p
          ∙ claim_seen-try i r tick db seen q l
          ∙ try_claim-hit i r tick db seen d b w)
        (
          refl,
          s.update_hit r.stream (is_claimable r tick.now) (claimed r tick seen) (i.before_claim db)
              d (claimed-stream r tick seen) b w,
        )

  -- A refused claim never answers yes.
  pub refuse-answer :
      (i : Interference Db) (r : ClaimRequest) (tick : Tick) (db : Db)
      → IsRefused (refuse c i r tick db).0
  unfolding refuse require ◌>>=◌
  refuse-answer i r tick db = go (find_one r.stream (i.before_reread db))
    where
      go :
          (o : Option IngestionCheckpoint)
          → IsRefused
              ((found_or_raise c "Checkpoint disappeared while claiming source unit" o
                  >>= λ existing db. (ok (existing, false), block_exhausted c i r tick existing db))
                (i.before_reread db)).0
      go none = tt
      go (some d) = refl

  pub refuse-found :
      (i : Interference Db) (r : ClaimRequest) (tick : Tick) (db : Db) (d : IngestionCheckpoint)
      → find_one r.stream (i.before_reread db) ≡ some d
      → refuse c i r tick db ≡ (ok (d, false), block_exhausted c i r tick d (i.before_reread db))
  unfolding refuse require ◌>>=◌
  refuse-found i r tick db d p =
      ap
        (λ o.
          (found_or_raise c "Checkpoint disappeared while claiming source unit" o >>= λ existing db.
          (ok (existing, false), block_exhausted c i r tick existing db))
            (i.before_reread db))
        p
