-- ===== src/Resolution/Outcomes.antt =====
-- What the answers of src/application/ingestion/quarantine_service.py mean, whatever its collaborators do.
use text.Mathlib.TextEquality.{eq_iff}
use reconciliation_ingestion.Prelude.{
  sym, ap, ◌∙◌, ◌⊎◌, ◌+◌, String, Bool, true, false, ◌||◌, not, Option, none, some, str_eq,
  if◌then◌else◌, ◌≡◌, refl, Bool-cases, inl, inr, arith,
}
use mathlib.Core.Bool.{true≢false}
use reconciliation_ingestion.Result.{Result, ok, err, Exec, pure, Post, Post-bind, proceed, ◌>>=◌}
use reconciliation_ingestion.Quarantine.Updates.{Evidence}
use reconciliation_ingestion.Quarantine.Types.{
  IngestionQuarantineRecord, QuarantineResolutionEvent, QuarantineStatus, QuarantineAction,
  is_terminal,
}
use reconciliation_ingestion.Resolution.Answers.{
  ResolutionResult, operation_counters, rejected_outcomes, duplicate_outcomes, failed_outcomes,
  is_one_of,
}
use reconciliation_ingestion.Resolution.Results.{
  is_notice, is_noticed, event_success, result_from_event, action_mismatch, replay_of,
}
use reconciliation_ingestion.Resolution.Ports.{ReprocessRequest, Ports, AuditEntry}
use reconciliation_ingestion.Resolution.Service.{
  Release, Settlement, release, released_result, terminal_resolve, settled_result, caught, handled,
  with_source, emit_audit, settled_answer,
}

-- Each operation counts its one row once: as persisted, rejected, duplicate or failed, whatever its outcome.
operation_counted_once :
    (outcome : String)
    → let n = operation_counters outcome in
      (n.input_rows ≡ 1)
      × ((n.persisted_rows + n.rejected_rows + n.duplicate_rows + n.failed_rows ≡ n.input_rows)
          × (n.quarantined_rows ≡ 0))
unfolding operation_counters
operation_counted_once outcome = elim (Bool-cases (is_one_of outcome rejected_outcomes)) [
  | inl e ↦ rw e (refl, (refl, refl))
  | inr e ↦ rw e (elim (Bool-cases (is_one_of outcome duplicate_outcomes)) [
    | inl f ↦ rw f (refl, (refl, refl))
    | inr f ↦ rw f (elim (Bool-cases (is_one_of outcome failed_outcomes)) [
      | inl g ↦ rw g (refl, (refl, refl))
      | inr g ↦ rw g (refl, (refl, refl))
    ])
  ])
]

-- What an event that a repeated request is answered from records: a settlement, a claim or an escalation.
pub data IsAnswerable (e : QuarantineResolutionEvent) : Type 0 where
  resolution : e.to_status ≡ QuarantineStatus.resolved → IsAnswerable e
  rejection : e.to_status ≡ QuarantineStatus.rejected → IsAnswerable e
  claim : e.outcome ≡ some "CLAIMED" → IsAnswerable e
  escalation : e.outcome ≡ some "ESCALATED" → IsAnswerable e

notice_is : (o : String) → is_notice o ≡ true → (o ≡ "CLAIMED") ⊎ (o ≡ "ESCALATED")
notice_is o h = elim (Bool-cases (str_eq o "CLAIMED")) [
  | inl e ↦ inl ((eq_iff o "CLAIMED").0 e)
  | inr e ↦ elim (Bool-cases (str_eq o "ESCALATED")) [
    | inl f ↦ inr ((eq_iff o "ESCALATED").0 f)
    | inr f ↦ absurd (true≢false (sym h ∙ (rw (e, f) refl)))
  ]
]

IsAnswerable-noticed :
    (e : QuarantineResolutionEvent) (o : Option String)
    → e.outcome ≡ o
    → is_noticed o ≡ true
    → IsAnswerable e
IsAnswerable-noticed e none p h = cc h
IsAnswerable-noticed e (some o) p h = elim (notice_is o h) [
  | inl q ↦ claim (p ∙ ap some q)
  | inr q ↦ escalation (p ∙ ap some q)
]

IsAnswerable-by :
    (e : QuarantineResolutionEvent) (st : QuarantineStatus)
    → e.to_status ≡ st
    → (is_terminal st || is_noticed e.outcome) ≡ true
    → IsAnswerable e
IsAnswerable-by e QuarantineStatus.resolved p h = resolution p
IsAnswerable-by e QuarantineStatus.rejected p h = rejection p
IsAnswerable-by e QuarantineStatus.pending p h = IsAnswerable-noticed e e.outcome refl h
IsAnswerable-by e QuarantineStatus.reprocessing p h = IsAnswerable-noticed e e.outcome refl h

module _ {S C : Type 0} (w : Ports S C) (r : ReprocessRequest) where
  -- What a success rests on, where the service leaves the world as `t`: the repository has just settled the record, for
  -- this operator and in the status that is answered, and the settlement was recorded for the audit, under the
  -- same operator, action and status; or the event that
  -- the repository has found for this action is one of this operator's that tells of it, and the answer is made of it.
  pub data IsJustified (x : ResolutionResult) (t : S) : Type 0 where
    no_success : x.success ≡ false → IsJustified x t
    settled :
        (target : QuarantineStatus) (action : QuarantineAction) (ev : Evidence) (entry : AuditEntry)
        (before after : S)
        → (target ≡ QuarantineStatus.resolved) ⊎ (target ≡ QuarantineStatus.rejected)
        → x.status ≡ some target
        → w.resolve r.record_id target r.operator_id action ev before ≡ (ok true, after)
        → ev.action_id ≡ some r.action_id
        → entry.actor ≡ r.operator_id
        → entry.action_id ≡ some r.action_id
        → entry.new_status ≡ some target
        → w.audit entry after ≡ (ok tt, t)
        → IsJustified x t
    repeated :
        (e : QuarantineResolutionEvent) (before : S)
        → w.find_action r.record_id r.action_id before ≡ (ok (some e), t)
        → e.actor ≡ r.operator_id
        → IsAnswerable e
        → x ≡ result_from_event r.record_id e
        → IsJustified x t

  -- Every answer of a call is justified.
  unfoldable pub AnswersJustified : Exec S ResolutionResult → Type 0
  AnswersJustified m = (s : S) → Post IsJustified (m s)

  Post-any : {A : Type 0} (x : Result A × S) → Post (λ _ _. Unit {0}) x
  Post-any (ok a, t) = tt
  Post-any (err e, t) = tt

  pub AnswersJustified-bind :
      {A : Type 0} (m : Exec S A) (f : A → Exec S ResolutionResult)
      → ((a : A) → AnswersJustified (f a))
      → AnswersJustified (m >>= f)
  unfolding AnswersJustified
  AnswersJustified-bind m f h s =
      Post-bind (λ _ _. Unit {0}) IsJustified m f s (Post-any (m s)) (λ a t _. h a t)

  -- An answer that is no success.
  pub AnswersJustified-pure : (x : ResolutionResult) → x.success ≡ false → AnswersJustified (pure x)
  unfolding AnswersJustified
  AnswersJustified-pure x h s = no_success h

  pub AnswersJustified-caught :
      {A : Type 0} (m : Exec S A) (f : A → Exec S ResolutionResult) (h : Exec S ResolutionResult)
      → ((a : A) → AnswersJustified (f a))
      → AnswersJustified h
      → AnswersJustified (caught w m f h)
  unfolding AnswersJustified caught
  AnswersJustified-caught {A} m f h p q s = go (m s)
    where
      go : (x : Result A × S) → Post IsJustified (handled w x.0 f h x.1)
      go (ok a, t) = p a t
      go (err e, t) = q t

  pub AnswersJustified-release :
      (d : IngestionQuarantineRecord) (x : Release) → AnswersJustified (release w d r x)
  unfolding release released_result
  AnswersJustified-release d x = AnswersJustified-bind _ _ (λ done.
      AnswersJustified-bind _ _ (λ _. AnswersJustified-pure (released_result w d r x done) refl))

  abbrev settling : Settlement → Evidence
  settling x = record {
    reason = x.reason;
    metadata = with_source x.source_evidence_available x.metadata;
    action_id = some r.action_id;
    outcome = some x.outcome;
  }

  module _ (d : IngestionQuarantineRecord) (x : Settlement)
      (terminal : (x.target ≡ QuarantineStatus.resolved)
        ⊎ (x.target ≡ QuarantineStatus.rejected)) where
    after_audit :
        (entry : AuditEntry) (before after : S)
        → w.resolve r.record_id x.target r.operator_id x.action (settling x) before
          ≡ (ok true, after)
        → entry.actor ≡ r.operator_id
        → entry.action_id ≡ some r.action_id
        → entry.new_status ≡ some x.target
        → (z : Result (Unit {0}) × S) → w.audit entry after ≡ z
        → Post IsJustified (proceed z.0 (λ _. pure (settled_result w d r x true)) z.1)
    unfolding settled_result
    after_audit entry before after p by_whom which to_what (err e, t) q = tt
    after_audit entry before after p by_whom which to_what (ok _, t) q =
        settled x.target x.action (settling x) entry before after terminal refl p refl by_whom which
          to_what q

    after_resolve :
        (before : S) (z : Result Bool × S)
        → w.resolve r.record_id x.target r.operator_id x.action (settling x) before ≡ z
        → Post IsJustified (proceed z.0 (settled_answer w d r x) z.1)
    unfolding settled_result emit_audit ◌>>=◌
    after_resolve before (err e, t) p = tt
    after_resolve before (ok false, t) p = no_success refl
    after_resolve before (ok true, t) p = after_audit _ before t p refl refl refl (w.audit _ t) refl

    pub AnswersJustified-terminal_resolve : AnswersJustified (terminal_resolve w d r x)
    unfolding AnswersJustified terminal_resolve ◌>>=◌
    AnswersJustified-terminal_resolve before =
        after_resolve before
          (w.resolve r.record_id x.target r.operator_id x.action (settling x) before) refl

  pub AnswersJustified-if :
      (b : Bool) (m n : Exec S ResolutionResult)
      → AnswersJustified m
      → AnswersJustified n
      → AnswersJustified (if b then m else n)
  AnswersJustified-if true m n p q = p
  AnswersJustified-if false m n p q = q

  own_actor :
      (action : QuarantineAction) (expected : Option String) (e : QuarantineResolutionEvent)
      → action_mismatch r.operator_id action expected e ≡ false
      → e.actor ≡ r.operator_id
  unfolding action_mismatch
  own_actor action expected e h =
      (eq_iff e.actor r.operator_id).0 (first_of_three (str_eq e.actor r.operator_id) _ _ h)
    where
      first_of_three : (a b c : Bool) → ((not a || b) || c) ≡ false → a ≡ true
      first_of_three a b c h = ground arith

  -- The answer that is made of a stored event.
  pub IsJustified-event :
      (e : QuarantineResolutionEvent) (before t : S)
      → w.find_action r.record_id r.action_id before ≡ (ok (some e), t)
      → e.actor ≡ r.operator_id
      → IsJustified (result_from_event r.record_id e) t
  unfolding result_from_event event_success
  IsJustified-event e before t p own =
      elim (Bool-cases (is_terminal e.to_status || is_noticed e.outcome)) [
        | inl h ↦ repeated e before p own (IsAnswerable-by e e.to_status refl h) refl
        | inr h ↦ no_success h
      ]

  pub IsJustified-replay :
      (action : QuarantineAction) (expected : Option String) (e : QuarantineResolutionEvent)
      (before t : S)
      → w.find_action r.record_id r.action_id before ≡ (ok (some e), t)
      → IsJustified (replay_of r.record_id r.action_id r.operator_id action expected e) t
  unfolding replay_of
  IsJustified-replay action expected e before t p =
      elim (Bool-cases (action_mismatch r.operator_id action expected e)) [
        | inl h ↦ rw h (no_success refl)
        | inr h ↦ rw h (IsJustified-event e before t p (own_actor action expected e h))
      ]
