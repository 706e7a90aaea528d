-- ===== src/Resolution/Justified.antt =====
-- `resolve_claimed` of src/application/ingestion/quarantine_service.py, path by path: no answer claims a success that
-- is none.
use reconciliation_ingestion.Prelude.{
  ℕ, String, Bool, true, false, ◌&&◌, ◌||◌, not, Option, none, some, List, ltb, str_eq, same_key,
  is_some, if◌then◌else◌, ◌≡◌, refl, inl, inr,
}
use reconciliation_ingestion.Result.{
  Result, ok, err, Error, value_error, Exec, Post, proceed, ◌>>=◌,
}
use reconciliation_ingestion.Quarantine.Types.{
  IngestionQuarantineRecord, QuarantineResolutionEvent, is_reprocessing, same_status,
}
use reconciliation_ingestion.Quarantine.Updates.{claim_expired}
use reconciliation_ingestion.Quarantine.Repository.{
  Reservation, is_reserved, not_found, completed, in_progress, conflict,
}
use reconciliation_ingestion.Resolution.Answers.{
  ResolutionResult, missing_record, stale_record, RowIssue,
}
use reconciliation_ingestion.Resolution.Ports.{
  ReprocessMode, ReprocessRequest, ResolvedInput, WriteCounts, Ports, Processed, action_for,
  resolve_reprocess_input,
}
use reconciliation_ingestion.Resolution.Service.{
  accept_existing_row, accept_current, read_and_accept,
}
use reconciliation_ingestion.Resolution.Replay.{
  settle_written, write_row, replay_row, without_input, caught_value_error, handled_value_error,
  stripped_reason,
}
use reconciliation_ingestion.Resolution.Resolving.{
  is_rejection, refused_answer, perform_reserved, replay_or, rejection, replay_request_or,
  on_reservation, refusal_of, reserve_unless, resolve_found, resolve_claimed,
}
use reconciliation_ingestion.Resolution.Outcomes.{
  IsJustified, IsJustified-replay, AnswersJustified, AnswersJustified-bind, AnswersJustified-pure,
  AnswersJustified-caught, AnswersJustified-release, AnswersJustified-terminal_resolve,
  AnswersJustified-if,
}

module _ {S C : Type 0} (w : Ports S C) (r : ReprocessRequest) where
  AnswersJustified-settle_written :
      (d : IngestionQuarantineRecord) (i : ResolvedInput) (n : WriteCounts)
      → AnswersJustified w r (settle_written w d r i n)
  unfolding settle_written
  AnswersJustified-settle_written d i n =
      AnswersJustified-if w r (ltb 0 n.conflicting_duplicates) _ _
        (AnswersJustified-release w r d _)
        (AnswersJustified-if w r (ltb 0 n.failed) _ _ (AnswersJustified-release w r d _)
          (AnswersJustified-terminal_resolve w r d _ (inl refl)))

  AnswersJustified-write_row :
      (d : IngestionQuarantineRecord) (i : ResolvedInput) (es : List RowIssue) (valid : Bool)
      (row : Option C)
      → AnswersJustified w r (write_row w d r i es valid row)
  AnswersJustified-write_row d i es true (some row) =
      AnswersJustified-caught w r _ _ _ (AnswersJustified-settle_written d i)
        (AnswersJustified-release w r d _)
  AnswersJustified-write_row d i es true none = AnswersJustified-release w r d _
  AnswersJustified-write_row d i es false row = AnswersJustified-release w r d _

  AnswersJustified-replay_row :
      (d : IngestionQuarantineRecord) (i : ResolvedInput)
      → AnswersJustified w r (replay_row w d r i)
  unfolding replay_row
  AnswersJustified-replay_row d i =
      AnswersJustified-caught w r _ _ _
        (λ (p : Processed C). AnswersJustified-write_row d i p.errors p.is_valid p.data_container)
        (AnswersJustified-release w r d _)

  AnswersJustified-caught_value_error :
      {A : Type 0} (m : Exec S A) (f : A → Exec S ResolutionResult) (h : Exec S ResolutionResult)
      → ((a : A) → AnswersJustified w r (f a))
      → AnswersJustified w r h
      → AnswersJustified w r (caught_value_error w m f h)
  unfolding AnswersJustified caught_value_error
  AnswersJustified-caught_value_error {A} m f h p q s = go (m s)
    where
      go : (x : Result A × S) → Post (IsJustified w r) (handled_value_error w x.0 f h x.1)
      go (ok a, t) = p a t
      go (err (value_error e), t) = q t
      go (err (Error.raised e), t) = tt
      go (err Error.context_mismatch, t) = tt
      go (err Error.accounting_mismatch, t) = tt

  AnswersJustified-accept_current :
      (d : IngestionQuarantineRecord) (current : Option String)
      → AnswersJustified w r (accept_current w d r current)
  AnswersJustified-accept_current d none = AnswersJustified-release w r d _
  AnswersJustified-accept_current d (some current) =
      AnswersJustified-if w r
        (not (str_eq current "") && same_key (some current) d.existing_fingerprint) _ _
        (AnswersJustified-terminal_resolve w r d _ (inl refl)) (AnswersJustified-release w r d _)

  AnswersJustified-read_and_accept :
      (d : IngestionQuarantineRecord)
      (read : Option (IngestionQuarantineRecord → Exec S (Option String)))
      → AnswersJustified w r (read_and_accept w d r read)
  AnswersJustified-read_and_accept d none = AnswersJustified-release w r d _
  AnswersJustified-read_and_accept d (some read) =
      AnswersJustified-caught w r _ _ _ (AnswersJustified-accept_current d)
        (AnswersJustified-release w r d _)

  AnswersJustified-accept_existing_row :
      (d : IngestionQuarantineRecord) → AnswersJustified w r (accept_existing_row w d r)
  unfolding accept_existing_row
  AnswersJustified-accept_existing_row d =
      AnswersJustified-if w r
        (is_some r.expected_existing_fingerprint
          && not (same_key r.expected_existing_fingerprint d.existing_fingerprint))
        _ _ (AnswersJustified-release w r d _)
        (AnswersJustified-read_and_accept d w.existing_fingerprint)

  AnswersJustified-replay_input :
      (d : IngestionQuarantineRecord)
      → AnswersJustified w r (
          caught_value_error w
            (resolve_reprocess_input w.read_source_row w.read_raw_page_row d r)
            (replay_row w d r)
            (without_input w d r))
  AnswersJustified-replay_input d =
      AnswersJustified-caught_value_error _ _ _ (AnswersJustified-replay_row d)
        (AnswersJustified-release w r d _)

  AnswersJustified-perform_reserved :
      (d : IngestionQuarantineRecord) (mode : ReprocessMode)
      → AnswersJustified w r (perform_reserved w d r mode)
  AnswersJustified-perform_reserved d ReprocessMode.reject =
      AnswersJustified-terminal_resolve w r d _ (inr (unfold rejection in refl))
  AnswersJustified-perform_reserved d ReprocessMode.accept_existing =
      AnswersJustified-accept_existing_row d
  AnswersJustified-perform_reserved d ReprocessMode.replay_source_row =
      AnswersJustified-replay_input d
  AnswersJustified-perform_reserved d ReprocessMode.corrected_row = AnswersJustified-replay_input d

  AnswersJustified-replay_request_or :
      (otherwise : Exec S ResolutionResult)
      → AnswersJustified w r otherwise
      → AnswersJustified w r (replay_request_or w r otherwise)
  unfolding AnswersJustified ◌>>=◌
  AnswersJustified-replay_request_or otherwise h before =
      answer (w.find_action r.record_id r.action_id before) refl
    where
      answer :
          (z : Result (Option QuarantineResolutionEvent) × S)
          → w.find_action r.record_id r.action_id before ≡ z
          → Post (IsJustified w r) (
              proceed z.0
                (replay_or w r.record_id r.action_id r.operator_id
                  (action_for r.mode)
                  none
                  otherwise)
                z.1)
      answer (err e, t) p = tt
      answer (ok none, t) p = h t
      answer (ok (some e), t) p = IsJustified-replay w r (action_for r.mode) none e before t p

  refused_is_no_success :
      (x : Reservation) (d : IngestionQuarantineRecord) → (refused_answer x r d).success ≡ false
  unfolding refused_answer
  refused_is_no_success is_reserved d = refl
  refused_is_no_success not_found d = refl
  refused_is_no_success completed d = refl
  refused_is_no_success in_progress d = refl
  refused_is_no_success conflict d = refl

  AnswersJustified-on_reservation :
      (d : IngestionQuarantineRecord) (x : Reservation)
      → AnswersJustified w r (on_reservation w d r x)
  AnswersJustified-on_reservation d is_reserved = AnswersJustified-perform_reserved d r.mode
  AnswersJustified-on_reservation d completed =
      AnswersJustified-replay_request_or _
        (AnswersJustified-pure w r _ (refused_is_no_success completed d))
  AnswersJustified-on_reservation d not_found =
      AnswersJustified-pure w r _ (refused_is_no_success not_found d)
  AnswersJustified-on_reservation d in_progress =
      AnswersJustified-pure w r _ (refused_is_no_success in_progress d)
  AnswersJustified-on_reservation d conflict =
      AnswersJustified-pure w r _ (refused_is_no_success conflict d)

  -- Where there is a refusal, it is no success.
  abbrev IsRefusal : Option ResolutionResult → Type 0
  IsRefusal none = Unit {0}
  IsRefusal (some x) = x.success ≡ false

  IsRefusal-if :
      (b : Bool) (x y : Option ResolutionResult)
      → IsRefusal x
      → IsRefusal y
      → IsRefusal (if b then x else y)
  IsRefusal-if true x y p q = p
  IsRefusal-if false x y p q = q

  IsRefusal-refusal_of :
      (now : ℕ) (d : IngestionQuarantineRecord) → IsRefusal (refusal_of w r now d)
  unfolding refusal_of stale_record
  IsRefusal-refusal_of now d =
      IsRefusal-if
        (not (is_reprocessing r.expected_status) || not (same_status d.status r.expected_status)) _
        _ refl
        (IsRefusal-if (not (same_key d.claimed_by (some r.operator_id))) _ _ refl (
          IsRefusal-if (claim_expired d.claim_expires_at now) _ _ refl (
            IsRefusal-if (is_rejection w r.mode && str_eq (stripped_reason r.reason) "") _ _ refl
              tt)))

  AnswersJustified-reserve_unless :
      (d : IngestionQuarantineRecord) (o : Option ResolutionResult)
      → IsRefusal o
      → AnswersJustified w r (reserve_unless w r d o)
  AnswersJustified-reserve_unless d (some x) h = AnswersJustified-pure w r x h
  AnswersJustified-reserve_unless d none h =
      AnswersJustified-bind w r _ _ (AnswersJustified-on_reservation d)

  AnswersJustified-resolve_found :
      (o : Option IngestionQuarantineRecord) → AnswersJustified w r (resolve_found w r o)
  AnswersJustified-resolve_found none =
      AnswersJustified-pure w r (missing_record r.record_id (action_for r.mode))
        (unfold missing_record in refl)
  AnswersJustified-resolve_found (some d) =
      AnswersJustified-bind w r _ _ (λ now.
        AnswersJustified-reserve_unless d (refusal_of w r now d) (IsRefusal-refusal_of now d))

  AnswersJustified-resolve_claimed : AnswersJustified w r (resolve_claimed w r)
  unfolding resolve_claimed
  AnswersJustified-resolve_claimed =
      AnswersJustified-replay_request_or _
        (AnswersJustified-bind w r _ _ (AnswersJustified-resolve_found))

  -- A success means that the record is settled: whatever the collaborators answer or raise, wherever `resolve_claimed`
  -- returns a success, the repository has just answered yes to settling this record for this operator and action, with
  -- the status that is answered, RESOLVED or REJECTED, and the audit recorded it under this operator, action and status; or the answer is made of the event
  -- that the repository holds of this action, one by the same operator that tells of a settlement, a claim or an
  -- escalation.
  pub success_is_settled : (s : S) → Post (IsJustified w r) (resolve_claimed w r s)
  unfolding AnswersJustified
  success_is_settled s = AnswersJustified-resolve_claimed s
