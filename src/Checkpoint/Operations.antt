-- ===== src/Checkpoint/Operations.antt =====
-- The operations of src/infrastructure/ingestion/checkpoint_repository.py against the steps of a document:
-- on the stream's own document each of them makes one step or none.
use reconciliation_ingestion.Prelude.{
  String, Bool, true, false, ◌&&◌, List, Option, none, some, same_key, ◌≡◌, refl, sym, ap, ◌∙◌,
  Bool-cases, ◌⊎◌, inl, inr, subst,
}
use reconciliation_ingestion.Result.{Result, ok, err}
use reconciliation_ingestion.Checkpoint.Types.{
  Stream, IngestionCheckpoint, HighWaterMark, ResolutionAction, is_processing, is_failed,
}
use reconciliation_ingestion.Checkpoint.Collection.{Collection, IsDocumentStore, KeepsStream}
use reconciliation_ingestion.Checkpoint.ClaimQuery.{
  Tick, ClaimRequest, Interference, is_zero_limit, reaches_limit, is_claimable, claimed, exhausted,
  is_stale,
}
use reconciliation_ingestion.Checkpoint.Claim.{block_exhausted, claim_seen, try_claim, claim_unit}
use reconciliation_ingestion.Checkpoint.Updates.{
  is_held, is_blocked_on, is_completed_on, resolved, advanced_to_next, resolution_action,
}
use reconciliation_ingestion.Checkpoint.Transitions.{
  mark_failed, resolve_as, resolve_blocked, advance,
}
use reconciliation_ingestion.Checkpoint.ReviewUpdates.{
  CompletedUnit, is_true, current_unit, is_retryable_on, retry_requested, is_under_review,
  stream_completed, stream_failed,
}
use reconciliation_ingestion.Checkpoint.Review.{
  retry_where, prepare_manual_retry, mark_stream_completed_after_review,
  mark_stream_failed_after_review,
}
use reconciliation_ingestion.Checkpoint.Fencing.{
  Ending, complete, fail, release, ending, ending-stream, end_unit, end_unit-eq,
}
use reconciliation_ingestion.Checkpoint.Attempt.{claimed-stream, exhausted-stream}
use reconciliation_ingestion.Checkpoint.Attempt.{
  claim_unit-seen, try_claim-hit, try_claim-miss, refuse-found,
}
use reconciliation_ingestion.Checkpoint.Lifecycle.{
  Step, claiming, exhausting, ending_unit, resolving, advancing, requesting_retry, closing_stream,
  failing_stream,
}

-- A call of the repository, with the caller's copy of the document where it takes one.
pub data Operation : Type 0 where
  claim : ClaimRequest → Tick → Operation
  end : IngestionCheckpoint → String → Ending → Tick → Operation
  resolve : IngestionCheckpoint → String → String → String → String → Tick → Operation
  next : IngestionCheckpoint → String → Tick → Operation
  retry : IngestionCheckpoint → String → String → Tick → Operation
  close_stream :
      IngestionCheckpoint
      → String
      → Option String
      → Option HighWaterMark
      → List CompletedUnit
      → Tick
      → Operation
  fail_stream : IngestionCheckpoint → String → String → String → Tick → Operation

abbrev stream_of : Operation → Stream
stream_of (claim r tick) = r.stream
stream_of (end h unit_key e tick) = h.stream
stream_of (resolve h unit_key action reason operator_id tick) = h.stream
stream_of (next h unit_key tick) = h.stream
stream_of (retry h operator_id reason tick) = h.stream
stream_of (close_stream h unit_key cursor mark units tick) = h.stream
stream_of (fail_stream h unit_key error error_code tick) = h.stream

module _ (c : Collection) where
  open c use {Db, find_one, update_one}

  -- Nobody else writes.
  abbrev pub undisturbed : Interference Db
  undisturbed = record {
    before_insert = λ x. x;
    before_claim = λ x. x;
    before_reread = λ x. x;
    before_block = λ x. x;
  }

  -- The database after a call.
  unfoldable pub perform : Operation → Db → Db
  perform (claim r tick) db = (claim_unit c undisturbed r tick db).1
  perform (end h unit_key e tick) db = (end_unit c h unit_key e tick db).1
  perform (resolve h unit_key action reason operator_id tick) db =
      (resolve_blocked c h unit_key action reason operator_id tick db).1
  perform (next h unit_key tick) db = (advance c h unit_key tick db).1
  perform (retry h operator_id reason tick) db =
      (prepare_manual_retry c h operator_id reason tick db).1
  perform (close_stream h unit_key cursor mark units tick) db =
      (mark_stream_completed_after_review c h unit_key cursor mark units tick db).1
  perform (fail_stream h unit_key error error_code tick) db =
      (mark_stream_failed_after_review c h unit_key error error_code tick db).1

  -- The stream's document is `d` still, or a step from it.
  abbrev pub IsMoved : Stream → IngestionCheckpoint → Db → Type 0
  IsMoved k d db = (d' : IngestionCheckpoint) × (find_one k db ≡ some d') × ((d ≡ d') ⊎ Step d d')

  module _ (s : IsDocumentStore c) where
    IsMoved-update :
        (k : Stream) (q : IngestionCheckpoint → Bool)
        (f : IngestionCheckpoint → IngestionCheckpoint) (db : Db) (d : IngestionCheckpoint)
        → KeepsStream f
        → find_one k db ≡ some d
        → (q d ≡ true → Step d (f d))
        → IsMoved k d (update_one k q f db).1
    IsMoved-update k q f db d keeps p step = elim (Bool-cases (q d)) [
      | inl e ↦ (f d, s.update_hit k q f db d keeps p e, inr (step e))
      | inr e ↦ (d, ap (λ u. find_one k u.1) (s.update_miss k q f db d p e) ∙ p, inl refl)
    ]

    IsMoved-same :
        (k : Stream) (d : IngestionCheckpoint) (db : Db) → find_one k db ≡ some d → IsMoved k d db
    IsMoved-same k d db p = (d, p, inl refl)

    IsMoved-block_exhausted :
        (r : ClaimRequest) (tick : Tick) (db : Db) (d : IngestionCheckpoint)
        → find_one r.stream db ≡ some d
        → IsMoved r.stream d (block_exhausted c undisturbed r tick d db)
    unfolding block_exhausted
    IsMoved-block_exhausted r tick db d p =
        elim (Bool-cases (is_processing d.status && reaches_limit d.attempt_count r.max_attempts)) [
          | inl e ↦ rw e (
              IsMoved-update r.stream (is_stale d) (exhausted tick d) db d (exhausted-stream tick d)
                p (exhausting tick d))
          | inr e ↦ rw e (IsMoved-same r.stream d db p)
        ]

    IsMoved-try_claim :
        (r : ClaimRequest) (tick : Tick) (db : Db) (d : IngestionCheckpoint)
        → find_one r.stream db ≡ some d
        → IsMoved r.stream d (try_claim c undisturbed r tick d db).1
    IsMoved-try_claim r tick db d p = elim (Bool-cases (is_claimable r tick.now d)) [
      | inl e ↦ rw (try_claim-hit c s undisturbed r tick db d d p e) (
          IsMoved-update r.stream (is_claimable r tick.now) (claimed r tick d) db d
            (claimed-stream r tick d) p (claiming r tick d))
      | inr e ↦
          rw
            (try_claim-miss c s undisturbed r tick db d d p e
              ∙ refuse-found c s undisturbed r tick db d p)
            (IsMoved-block_exhausted r tick db d p)
    ]

    IsMoved-claim_seen :
        (r : ClaimRequest) (tick : Tick) (db : Db) (d : IngestionCheckpoint)
        → find_one r.stream db ≡ some d
        → IsMoved r.stream d (claim_seen c undisturbed r tick (d, false) db).1
    unfolding claim_seen
    IsMoved-claim_seen r tick db d p =
        elim (Bool-cases (same_key d.last_completed_unit_key (some r.unit_key))) [
          | inl e ↦ rw e (IsMoved-same r.stream d db p)
          | inr e ↦ rw e (elim (Bool-cases (is_zero_limit r.max_attempts)) [
            | inl z ↦ rw z (IsMoved-same r.stream d db p)
            | inr z ↦ rw z (IsMoved-try_claim r tick db d p)
          ])
        ]

    IsMoved-held :
        (h : IngestionCheckpoint) (unit_key : String) (e : Ending) (tick : Tick) (db : Db)
        (d : IngestionCheckpoint)
        → find_one h.stream db ≡ some d
        → IsMoved h.stream d
            (update_one h.stream (is_held h.claim_id unit_key) (ending h unit_key e tick) db).1
    IsMoved-held h unit_key e tick db d p =
        IsMoved-update h.stream (is_held h.claim_id unit_key) (ending h unit_key e tick) db d
          (ending-stream h unit_key e tick) p (ending_unit h unit_key e tick)

    IsMoved-end_unit :
        (h : IngestionCheckpoint) (unit_key : String) (e : Ending) (tick : Tick) (db : Db)
        (d : IngestionCheckpoint)
        → find_one h.stream db ≡ some d
        → IsMoved h.stream d (end_unit c h unit_key e tick db).1
    unfolding end_unit mark_failed
    IsMoved-end_unit h unit_key (complete cursor mark) tick db d p =
        subst (IsMoved h.stream d)
          (sym (ap (λ u. u.1) (end_unit-eq c s h unit_key (complete cursor mark) tick db tt)))
          (IsMoved-held h unit_key (complete cursor mark) tick db d p)
    IsMoved-end_unit h unit_key (fail f) tick db d p =
        elim (Bool-cases (is_zero_limit f.max_attempts)) [
          | inl z ↦ rw z (IsMoved-same h.stream d db p)
          | inr z ↦
              subst (IsMoved h.stream d)
                (sym (ap (λ u. u.1) (end_unit-eq c s h unit_key (fail f) tick db z)))
                (IsMoved-held h unit_key (fail f) tick db d p)
        ]
    IsMoved-end_unit h unit_key (release reason) tick db d p =
        subst (IsMoved h.stream d)
          (sym (ap (λ u. u.1) (end_unit-eq c s h unit_key (release reason) tick db tt)))
          (IsMoved-held h unit_key (release reason) tick db d p)

    IsMoved-resolve_blocked :
        (h : IngestionCheckpoint) (unit_key action reason operator_id : String) (tick : Tick)
        (db : Db) (d : IngestionCheckpoint)
        → find_one h.stream db ≡ some d
        → IsMoved h.stream d (resolve_blocked c h unit_key action reason operator_id tick db).1
    unfolding resolve_blocked
    IsMoved-resolve_blocked h unit_key action reason operator_id tick db d p =
        go (resolution_action action)
      where
        go :
            (a : Result ResolutionAction)
            → IsMoved h.stream d (resolve_as c h unit_key reason operator_id tick db a).1
        go (err e) = IsMoved-same h.stream d db p
        go (ok a) =
            IsMoved-update h.stream (is_blocked_on unit_key)
              (resolved h unit_key a reason operator_id tick) db d (λ _. unfold resolved in refl) p
              (resolving h unit_key a reason operator_id tick)

    IsMoved-prepare_manual_retry :
        (h : IngestionCheckpoint) (operator_id reason : String) (tick : Tick) (db : Db)
        (d : IngestionCheckpoint)
        → find_one h.stream db ≡ some d
        → IsMoved h.stream d (prepare_manual_retry c h operator_id reason tick db).1
    unfolding prepare_manual_retry
    IsMoved-prepare_manual_retry h operator_id reason tick db d p =
        go (is_failed h.status) (current_unit h) (is_true h.retryable)
      where
        go :
            (failed : Bool) (key : Option String) (retryable : Bool)
            → IsMoved h.stream d (retry_where c h operator_id reason tick db failed key retryable).1
        go false key retryable = IsMoved-same h.stream d db p
        go true none retryable = IsMoved-same h.stream d db p
        go true (some key) false = IsMoved-same h.stream d db p
        go true (some key) true =
            IsMoved-update h.stream (is_retryable_on key)
              (retry_requested h key operator_id reason tick) db d
              (λ _. unfold retry_requested in refl) p
              (requesting_retry h key operator_id reason tick)

    -- Every operation on a stream that has its document, called with any copy of the document and on a
    -- database that nobody else writes to meanwhile, leaves the document as it was or makes one step of
    -- the lifecycle.
    pub operation_is_a_step :
        (o : Operation) (db : Db) (d : IngestionCheckpoint)
        → find_one (stream_of o) db ≡ some d
        → IsMoved (stream_of o) d (perform o db)
    unfolding perform advance mark_stream_completed_after_review mark_stream_failed_after_review
    operation_is_a_step (claim r tick) db d p =
        subst (IsMoved r.stream d)
          (sym (ap (λ u. u.1) (claim_unit-seen c s undisturbed r tick db d p)))
          (IsMoved-claim_seen r tick db d p)
    operation_is_a_step (end h unit_key e tick) db d p = IsMoved-end_unit h unit_key e tick db d p
    operation_is_a_step (resolve h unit_key action reason operator_id tick) db d p =
        IsMoved-resolve_blocked h unit_key action reason operator_id tick db d p
    operation_is_a_step (next h unit_key tick) db d p =
        IsMoved-update h.stream (is_completed_on unit_key) (advanced_to_next tick) db d
          (λ _. unfold advanced_to_next in refl) p (advancing unit_key tick)
    operation_is_a_step (retry h operator_id reason tick) db d p =
        IsMoved-prepare_manual_retry h operator_id reason tick db d p
    operation_is_a_step (close_stream h unit_key cursor mark units tick) db d p =
        IsMoved-update h.stream is_under_review (stream_completed h unit_key cursor mark units tick)
          db d (λ _. unfold stream_completed in refl) p
          (closing_stream h unit_key cursor mark units tick)
    operation_is_a_step (fail_stream h unit_key error error_code tick) db d p =
        IsMoved-update h.stream is_under_review (stream_failed h unit_key error error_code tick) db
          d (λ _. unfold stream_failed in refl) p (failing_stream h unit_key error error_code tick)
