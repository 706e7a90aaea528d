-- ===== src/Orchestrator/Rounds.antt =====
-- One round of `process_source_units` of src/application/ingestion/source_unit_orchestrator.py: it goes on with
-- one more unit behind, or it returns with the unit's key.
use reconciliation_ingestion.Prelude.{
  ℕ, ◌+◌, ◌≤◌, String, Bool, true, false, ◌&&◌, ◌||◌, not, Option, none, some, same_key,
  if◌then◌else◌, ◌≡◌, refl, ap, ◌∙◌, arith, Bool-cases, inl, inr,
}
use reconciliation_ingestion.Result.{
  Result, ok, err, Exec, IsReturned, Returns, Returns-bind, Returns-weaken, proceed, ◌>>=◌,
}
use reconciliation_ingestion.Checkpoint.Types.{IngestionCheckpoint}
use reconciliation_ingestion.Checkpoint.Updates.{Failure, is_skip}
use reconciliation_ingestion.Orchestrator.Outcome.{
  SourceUnitMetadata, IngestionOutcome, IngestionResult, from_result, raw_outcome,
  source_file_id_of, accepted_duplicate,
}
use reconciliation_ingestion.Orchestrator.Ports.{
  Ports, Progress, Summary, UnitEnd, moved, stopped, failure, claimed_notice, ingested, failure_at,
  review_at, note_duplicate, attempted_call,
}
use reconciliation_ingestion.Orchestrator.Process.{
  attempt_limit, tell, record_failure, failure_of, not_won, advance_if, skip_unit, hold_unit,
  fail_unit, advance_error, advance_unit, complete_unit, settle_unit, ingest_claimed, won,
  process_keyed, worker_raised,
}

-- The collaborators raise nothing.
pub record IsCalm {S : Type 0} (w : Ports S) : Type 0 where
  pub claims :
      (u : SourceUnitMetadata) (k : String) (previous : Option String) (limit : Option ℕ) (s : S)
      → IsReturned (w.claim_unit u k previous limit s).0
  pub completes :
      (c : IngestionCheckpoint) (k : String) (u : SourceUnitMetadata) (s : S)
      → IsReturned (w.mark_completed c k u s).0
  pub advances : (c : IngestionCheckpoint) (k : String) (s : S) → IsReturned (w.advance c k s).0
  pub fails :
      (c : IngestionCheckpoint) (k : String) (f : Failure) (s : S)
      → IsReturned (w.mark_failed c k f s).0
  pub releases :
      (c : IngestionCheckpoint) (k reason : String) (s : S)
      → IsReturned (w.release_for_review c k reason s).0
  pub ingests : (u : SourceUnitMetadata) (s : S) → IsReturned (w.ingest_unit u s).0
  pub calls_back : (u : SourceUnitMetadata) (s : S) → IsReturned (w.on_unit_completed u s).0

-- The units that are behind.
abbrev pub done : Progress → ℕ
done p = p.processed + p.replayed + p.skipped

-- A return that is not the one at the end of the list.
abbrev pub is_stop : Summary → Bool
is_stop x = not x.success || x.waiting_for_review

-- A round goes on with one more unit behind, or returns with the unit's key.
abbrev pub EndsUnit : Option String → Progress → UnitEnd → Type 0
EndsUnit k p (moved q) = (done q ≡ done p + 1) × (p.processed ≤ q.processed)
EndsUnit k p (stopped x) = (is_stop x ≡ true) × (x.stopped_at ≡ k) × (x.processed ≡ p.processed)

module _ {S : Type 0} (w : Ports S) (calm : IsCalm w) where
  Returns-any :
      {A : Type 0} (m : Exec S A) (s : S) → IsReturned (m s).0 → Returns (λ _ _. Unit {0}) (m s)
  Returns-any m s h = let (r, t) = m s in go r t h
    where
      go :
          {A : Type 0} (r : Result A) (t : S)
          → IsReturned r
          → Returns (λ (_ : A) _. Unit {0}) (r, t)
      go (ok a) t h = tt
      go (err e) t h = h

  -- A collaborator is called, and its answer taken on.
  Returns-call :
      {A B : Type 0} (Q : B → S → Type 0) (m : Exec S A) (f : A → Exec S B) (s : S)
      → IsReturned (m s).0
      → ((a : A) (t : S) → Returns Q (f a t))
      → Returns Q ((m >>= f) s)
  Returns-call Q m f s h k =
      Returns-bind (λ _ _. Unit {0}) Q m f s (Returns-any m s h) (λ a t _. k a t)

  Returns-if :
      {A : Type 0} (Q : A → S → Type 0) (b : Bool) (m n : Exec S A) (s : S)
      → Returns Q (m s)
      → Returns Q (n s)
      → Returns Q ((if b then m else n) s)
  Returns-if Q true m n s h k = h
  Returns-if Q false m n s h k = k

  IsReturned-bind :
      {A B : Type 0} (m : Exec S A) (f : A → Exec S B) (s : S)
      → IsReturned (m s).0
      → ((a : A) (t : S) → IsReturned (f a t).0)
      → IsReturned ((m >>= f) s).0
  unfolding ◌>>=◌
  IsReturned-bind m f s h k = let (r, t) = m s in go r t h
    where
      go : (r : Result _) (t : S) → IsReturned r → IsReturned (proceed r f t).0
      go (ok a) t h = k a t
      go (err e) t h = absurd h

  unfoldable pub Ends : Option String → Progress → UnitEnd → S → Type 0
  Ends k p e s = EndsUnit k p e

  Returns-not_won :
      (u : SourceUnitMetadata) (key : String) (c : IngestionCheckpoint) (p : Progress) (s : S)
      → Returns (Ends (some key) p) (not_won w u key c p s)
  unfolding not_won failure_at ◌>>=◌ Ends
  Returns-not_won u key c p s = elim (Bool-cases (same_key c.last_completed_unit_key (some key))) [
    | inl e ↦ rw e (omega arith, omega arith)
    | inr e ↦ rw e (refl, refl, refl)
  ]

  Returns-skip_unit :
      (u : SourceUnitMetadata) (key : String) (c : IngestionCheckpoint) (p : Progress) (s : S)
      → Returns (Ends (some key) p) (skip_unit w u key c p s)
  unfolding skip_unit failure_at Ends
  Returns-skip_unit u key c p s =
      Returns-call (Ends (some key) p) (w.mark_completed c key u) _ s (calm.completes c key u s)
        (λ completed t.
          Returns-call (Ends (some key) p) (advance_if w c key completed) _ t
            (calm_advance completed t)
            (λ advanced v.
              Returns-if (Ends (some key) p) advanced _ _ v (omega arith, omega arith)
                (refl, refl, refl)))
    where
      calm_advance : (b : Bool) (t : S) → IsReturned (advance_if w c key b t).0
      calm_advance true t = calm.advances c key t
      calm_advance false t = tt

  Returns-hold_unit :
      (u : SourceUnitMetadata) (key : String) (c : IngestionCheckpoint) (o : IngestionOutcome)
      (p : Progress) (s : S)
      → Returns (Ends (some key) p) (hold_unit w u key c o p s)
  unfolding hold_unit failure_at review_at Ends
  Returns-hold_unit u key c o p s =
      Returns-call (Ends (some key) p) (w.release_for_review c key (w.sanitize o.error)) _ s
        (calm.releases c key (w.sanitize o.error) s)
        (λ released t.
          Returns-if (Ends (some key) p) released _ _ t (refl, refl, refl) (refl, refl, refl))

  IsReturned-record_failure :
      (u : SourceUnitMetadata) (key : String) (f : Failure) (c : IngestionCheckpoint) (s : S)
      → IsReturned (record_failure w u key f c s).0
  unfolding record_failure
  IsReturned-record_failure u key f c s =
      IsReturned-bind (w.mark_failed c key f) (λ _. tell w u (failure f.error) c) s
        (calm.fails c key f s) (λ _ t. tt)

  Returns-fail_unit :
      (u : SourceUnitMetadata) (key : String) (c : IngestionCheckpoint) (o : IngestionOutcome)
      (p : Progress) (s : S)
      → Returns (Ends (some key) p) (fail_unit w u key c o p s)
  unfolding fail_unit failure_at Ends ◌>>=◌
  Returns-fail_unit u key c o p s =
      Returns-call (Ends (some key) p) (record_failure w u key (failure_of w o c (w.now s)) c) _ s
        (IsReturned-record_failure u key (failure_of w o c (w.now s)) c s)
        (λ _ t. (refl, refl, refl))

  Returns-advance_unit :
      (u : SourceUnitMetadata) (key : String) (c : IngestionCheckpoint) (r : IngestionResult)
      (p : Progress) (s : S)
      → Returns (Ends (some key) p) (advance_unit w u key c r p s)
  unfolding advance_unit failure_at Ends
  Returns-advance_unit u key c r p s =
      Returns-call (Ends (some key) p) (w.advance c key) _ s (calm.advances c key s) (λ advanced t.
        Returns-if (Ends (some key) p) advanced _ _ t
          (Returns-call (Ends (some key) p) (w.on_unit_completed u) _ (w.observe u (ingested r) c t)
            (calm.calls_back u (w.observe u (ingested r) c t)) (λ _ v. (omega arith, omega arith)))
          (refl, refl, refl))

  Returns-complete_unit :
      (u : SourceUnitMetadata) (key : String) (c : IngestionCheckpoint) (r : IngestionResult)
      (p : Progress) (s : S)
      → Returns (Ends (some key) p) (complete_unit w u key c r p s)
  unfolding complete_unit failure_at Ends
  Returns-complete_unit u key c r p s =
      Returns-call (Ends (some key) p) (w.mark_completed c key u) _ s (calm.completes c key u s)
        (λ completed t.
          Returns-if (Ends (some key) p) completed _ _ t (Returns-advance_unit u key c r p t) (
            Returns-call (Ends (some key) p)
              (record_failure w u key (advance_error w "Checkpoint completion update failed") c) _ t
              (IsReturned-record_failure u key
                (advance_error w "Checkpoint completion update failed") c t)
              (λ _ v. (refl, refl, refl))))

  note_duplicate-counts :
      (o : Option String) (p : Progress)
      → ((note_duplicate o p).processed ≡ p.processed) × (done (note_duplicate o p) ≡ done p)
  unfolding note_duplicate
  note_duplicate-counts none p = (refl, refl)
  note_duplicate-counts (some o) p = elim (Bool-cases (accepted_duplicate (some o))) [
    | inl e ↦ rw e (refl, refl)
    | inr e ↦ rw e (refl, refl)
  ]

  EndsUnit-noted :
      (k : Option String) (o : Option String) (p : Progress) (e : UnitEnd)
      → EndsUnit k (note_duplicate o p) e
      → EndsUnit k p e
  EndsUnit-noted k o p (moved q) h =
      let same = note_duplicate-counts o p in
      (h.0 ∙ ap (λ n. n + 1) same.1, omega (arith, h.1, same.0))
  EndsUnit-noted k o p (stopped x) h = (h.0, h.1, h.2 ∙ (note_duplicate-counts o p).0)

  Returns-settle_unit :
      (u : SourceUnitMetadata) (key : String) (c : IngestionCheckpoint) (p : Progress)
      (r : IngestionResult) (s : S)
      → Returns (Ends (some key) p) (settle_unit w u key c p r s)
  unfolding settle_unit ◌>>=◌ Ends
  Returns-settle_unit u key c p r s =
      let o = from_result r in
      let noted = note_duplicate (raw_outcome r) p in
      let marked = record noted {
        partial_outcome = noted.partial_outcome || same_key (raw_outcome r) (some "PARTIAL");
      } in
      let t : S = (elim (source_file_id_of r) [
        | none ↦ s
        | some f ↦ w.update_source_context c f s
      ]) in
      Returns-weaken (Ends (some key) noted) (Ends (some key) p) _
        (Returns-if (Ends (some key) noted) o.waiting_for_review _ _ t
          (Returns-hold_unit u key c o noted t)
          (Returns-if (Ends (some key) noted) (not o.success) _ _ t
            (Returns-fail_unit u key c o noted t) (Returns-complete_unit u key c r marked t)))
        (λ e _. EndsUnit-noted (some key) (raw_outcome r) p e)

  Returns-ingest_claimed :
      (u : SourceUnitMetadata) (key : String) (c : IngestionCheckpoint) (p : Progress) (s : S)
      → Returns (Ends (some key) p) (ingest_claimed w u key c p s)
  unfolding ingest_claimed
  Returns-ingest_claimed u key c p s = let (r, t) = w.ingest_unit u s in go r t (calm.ingests u s)
    where
      go :
          (r : Result IngestionResult) (t : S)
          → IsReturned r
          → Returns
              (Ends (some key) p)
              (attempted_call r (settle_unit w u key c p) (worker_raised w u key c) t)
      go (ok r) t h = Returns-settle_unit u key c p r t
      go (err e) t h = absurd h

  Returns-won :
      (u : SourceUnitMetadata) (key : String) (c : IngestionCheckpoint) (p : Progress) (s : S)
      → Returns (Ends (some key) p) (won w u key c p s)
  unfolding won ◌>>=◌
  Returns-won u key c p s =
      Returns-if (Ends (some key) p)
        (is_skip c.resolution && same_key c.current_unit_key (some key)) _ _
        (w.observe u claimed_notice c s)
        (Returns-skip_unit u key c p (w.observe u claimed_notice c s))
        (Returns-ingest_claimed u key c p (w.observe u claimed_notice c s))

  pub Returns-process_keyed :
      (u : SourceUnitMetadata) (p : Progress) (k : Option String) (s : S)
      → Returns (Ends k p) (process_keyed w u p k s)
  unfolding process_keyed failure_at Ends
  Returns-process_keyed u p none s = (refl, refl, refl)
  Returns-process_keyed u p (some key) s =
      Returns-call (Ends (some key) p) (w.claim_unit u key p.previous_unit_key (attempt_limit w)) _
        s (calm.claims u key p.previous_unit_key (attempt_limit w) s)
        (λ claim t.
          Returns-if (Ends (some key) p) claim.1 _ _ t (Returns-won u key claim.0 p t)
            (Returns-not_won u key claim.0 p t))
