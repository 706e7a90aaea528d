-- ===== src/Checkpoint/Claim.antt =====
-- `create_or_get` and `claim_unit` of src/infrastructure/ingestion/checkpoint_repository.py. Between two
-- calls of the database other workers may write: `Interference` holds their writes at each such point.
use reconciliation_ingestion.Prelude.{
  String, Bool, true, false, ◌&&◌, Option, none, some, same_key, if◌then◌else◌,
}
use reconciliation_ingestion.Result.{
  Result, ok, err, raised, value_error, Exec, pure, lift, modify, ◌>>=◌, ◌>>◌,
}
use reconciliation_ingestion.Checkpoint.Types.{Stream, IngestionCheckpoint, is_processing}
use reconciliation_ingestion.Checkpoint.Collection.{Collection}
use reconciliation_ingestion.Checkpoint.ClaimQuery.{
  ClaimRequest, Tick, Interference, new_checkpoint, is_claimable, claimed, is_stale, exhausted,
  reaches_limit, is_zero_limit,
}

module _ (c : Collection) where
  open c use {Db, find_one, insert_one, update_one, find_one_and_update}

  abbrev M : Type 0 → Type 0
  M A = Exec Db A

  abbrev pub found_or_raise : String → Option IngestionCheckpoint → M IngestionCheckpoint
  found_or_raise message none db = (err (raised message), db)
  found_or_raise message (some d) db = (ok d, db)

  -- A document that must be there.
  unfoldable pub require : String → Stream → M IngestionCheckpoint
  require message k db = found_or_raise message (find_one k db) db

  -- The `try` of `create_or_get`.
  unfoldable pub create : IngestionCheckpoint → M (IngestionCheckpoint × Bool)
  unfolding ◌>>=◌ require
  create x db = elim (insert_one x db) [
    | some db' ↦ (ok (x, true), db')
    | none ↦ (require "DuplicateKeyError" x.stream >>= λ d. pure (d, false)) db
  ]

  -- `create_or_get` after its first read.
  abbrev pub found_or_create :
      Interference Db
      → IngestionCheckpoint
      → Option IngestionCheckpoint
      → M (IngestionCheckpoint × Bool)
  found_or_create i x none db = create x (i.before_insert db)
  found_or_create i x (some d) db = (ok (d, false), db)

  unfoldable pub create_or_get :
      Interference Db → IngestionCheckpoint → M (IngestionCheckpoint × Bool)
  unfolding create
  create_or_get i x db = found_or_create i x (find_one x.stream db) db

  -- The stale claim that has used its last attempt is blocked.
  unfoldable pub block_exhausted :
      Interference Db → ClaimRequest → Tick → IngestionCheckpoint → Db → Db
  block_exhausted i r tick existing db =
      if is_processing existing.status && reaches_limit existing.attempt_count r.max_attempts
      then (update_one r.stream (is_stale existing) (exhausted tick existing) (i.before_block db)).1
      else db

  -- The end of `claim_unit`, where the update has matched no document.
  unfoldable pub refuse : Interference Db → ClaimRequest → Tick → M (IngestionCheckpoint × Bool)
  unfolding ◌>>=◌ require block_exhausted
  refuse i r tick = do
    modify i.before_reread
    existing ← require "Checkpoint disappeared while claiming source unit" r.stream
    modify (block_exhausted i r tick existing)
    pure (existing, false)

  -- `claim_unit` after its atomic update.
  abbrev pub won_or_refused :
      Interference Db
      → ClaimRequest
      → Tick
      → Option IngestionCheckpoint × Db
      → Result (IngestionCheckpoint × Bool) × Db
  won_or_refused i r tick (some d, db) = (ok (d, true), db)
  won_or_refused i r tick (none, db) = refuse i r tick db

  -- The atomic part of `claim_unit`, on the document `seen` read before.
  unfoldable pub try_claim :
      Interference Db → ClaimRequest → Tick → IngestionCheckpoint → M (IngestionCheckpoint × Bool)
  unfolding refuse
  try_claim i r tick seen db = won_or_refused i r tick (
      find_one_and_update r.stream (is_claimable r tick.now) (claimed r tick seen)
        (i.before_claim db))

  -- `claim_unit` after `create_or_get`.
  unfoldable pub claim_seen :
      Interference Db
      → ClaimRequest
      → Tick
      → IngestionCheckpoint × Bool
      → M (IngestionCheckpoint × Bool)
  unfolding try_claim
  claim_seen i r tick (seen, created) =
      if same_key seen.last_completed_unit_key (some r.unit_key)
      then pure (seen, false)
      else if is_zero_limit r.max_attempts
      then lift (err (value_error "max_attempts must be at least 1"))
      else try_claim i r tick seen

  -- `claim_unit`
  unfoldable pub claim_unit : Interference Db → ClaimRequest → Tick → M (IngestionCheckpoint × Bool)
  unfolding ◌>>=◌ create_or_get claim_seen
  claim_unit i r tick = create_or_get i (new_checkpoint r tick.now) >>= claim_seen i r tick
