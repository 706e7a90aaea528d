-- ===== src/Orchestrator/Ports.antt =====
-- The collaborators of `process_source_units` of src/application/ingestion/source_unit_orchestrator.py, over a
-- world `S` that they change, its local variables, and the dictionaries that it returns.
use reconciliation_ingestion.Prelude.{
  ℕ, String, Bool, true, false, ◌&&◌, List, [], ◌∷◌, ◌++◌, Option, none, some, length, every,
  str_eq, ltb, ◌==◌, if◌then◌else◌,
}
use reconciliation_ingestion.Result.{Result, ok, err, Error, Exec}
use reconciliation_ingestion.Retry.{RetryPolicy}
use reconciliation_ingestion.Checkpoint.Types.{IngestionCheckpoint}
use reconciliation_ingestion.Checkpoint.Updates.{Failure}
use reconciliation_ingestion.Orchestrator.Outcome.{
  SourceUnitMetadata, IngestionResult, accepted_duplicate,
}

-- What `on_unit_observed` is told.
pub data Notice : Type 0 where
  claimed_notice replayed_notice skipped_notice : Notice
  ingested : IngestionResult → Notice
  failure waiting : String → Notice

pub record Ports (S : Type 0) : Type 0 where
  pub claim_unit :
      SourceUnitMetadata → String → Option String → Option ℕ → Exec S (IngestionCheckpoint × Bool)
  pub mark_completed : IngestionCheckpoint → String → SourceUnitMetadata → Exec S Bool
  pub advance : IngestionCheckpoint → String → Exec S Bool
  pub mark_failed : IngestionCheckpoint → String → Failure → Exec S Bool
  pub release_for_review : IngestionCheckpoint → String → String → Exec S Bool
  pub update_source_context : IngestionCheckpoint → String → S → S
  pub ingest_unit : SourceUnitMetadata → Exec S IngestionResult
  pub observe : SourceUnitMetadata → Notice → IngestionCheckpoint → S → S
  pub on_unit_completed : SourceUnitMetadata → Exec S (Unit {0})
  pub now : S → ℕ
  pub sanitize : String → String
  pub describe : Error → String
  pub max_attempts : Option ℕ
  pub retry_policy : Option RetryPolicy

-- The local variables of the loop.
pub record Progress : Type 0 where
  pub processed : ℕ
  pub replayed : ℕ
  pub skipped : ℕ
  pub partial_outcome : Bool
  pub duplicate_outcomes : List String
  pub previous_unit_key : Option String

-- The returned dictionary; a count that it leaves out is 0.
pub record Summary : Type 0 where
  pub success : Bool
  pub processed : ℕ
  pub failed : ℕ
  pub replayed : ℕ
  pub skipped : ℕ
  pub stopped_at : Option String
  pub outcome : Option String
  pub waiting_for_review : Bool
  pub reconciliation_skipped : Bool
  pub error : Option String

-- The end of one round: on to the next unit, or a return.
pub data UnitEnd : Type 0 where
  moved : Progress → UnitEnd
  stopped : Summary → UnitEnd

-- The dictionary of a failure.
unfoldable pub failure_at : Option String → String → Progress → Summary
failure_at key error p = record {
  success = false;
  processed = p.processed;
  failed = 1;
  replayed = 0;
  skipped = 0;
  stopped_at = key;
  outcome = none;
  waiting_for_review = false;
  reconciliation_skipped = false;
  error = some error;
}

-- The dictionary of a unit that waits for a review.
unfoldable pub review_at : String → String → Progress → Summary
review_at key reason p = record {
  success = true;
  processed = p.processed;
  failed = 0;
  replayed = 0;
  skipped = 0;
  stopped_at = some key;
  outcome = some "WAITING_REVIEW";
  waiting_for_review = true;
  reconciliation_skipped = false;
  error = some reason;
}

-- duplicate_outcomes[0] if len(set(duplicate_outcomes)) == 1 else "FETCH_UNIT_REPLAY"
unfoldable duplicate_outcome : List String → Option String
duplicate_outcome [] = none
duplicate_outcome (o ∷ os) = if every (λ q. str_eq q o) os then some o else some "FETCH_UNIT_REPLAY"

-- `duplicate_outcomes and len(duplicate_outcomes) == processed`
unfoldable all_duplicates : Progress → Bool
all_duplicates p =
    ltb 0 (length p.duplicate_outcomes) && (length p.duplicate_outcomes == p.processed)

-- `summary_result`
unfoldable pub summary : Progress → Summary
unfolding duplicate_outcome all_duplicates
summary p = record {
  success = true;
  processed = p.processed;
  failed = 0;
  replayed = p.replayed;
  skipped = p.skipped;
  stopped_at = none;
  outcome =
      if all_duplicates p
      then duplicate_outcome p.duplicate_outcomes
      else if p.partial_outcome
      then some "PARTIAL"
      else none;
  waiting_for_review = false;
  reconciliation_skipped = all_duplicates p;
  error = none;
}

-- The progress after a unit's result is read: accepted duplicates are collected.
unfoldable pub note_duplicate : Option String → Progress → Progress
note_duplicate none p = p
note_duplicate (some o) p =
    if accepted_duplicate (some o)
    then record p { duplicate_outcomes = p.duplicate_outcomes ++ (o ∷ []) }
    else p

-- The call that a raise may leave, and its handler.
abbrev pub attempted_call :
    {S A B : Type 0} → Result A → (A → Exec S B) → (Error → Exec S B) → Exec S B
attempted_call (ok a) f h = f a
attempted_call (err e) f h = h e
