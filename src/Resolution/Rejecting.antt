-- ===== src/Resolution/Rejecting.antt =====
-- A rejection by `_resolve_claimed` of src/application/ingestion/quarantine_service.py, call by call, and the events
-- that it is answered from.
use reconciliation_ingestion.Prelude.{
  ℕ, String, Bool, true, false, ◌&&◌, ◌||◌, not, none, some, List, [], ◌∷◌, ◌++◌, any, str_eq,
  same_key, if◌then◌else◌, ◌≡◌, refl, ap, ◌∙◌,
}
use reconciliation_ingestion.Result.{Result, ok, err, Exec, gets, proceed, ◌>>=◌}
use reconciliation_ingestion.Quarantine.Types.{
  IngestionQuarantineRecord, QuarantineResolutionEvent, QuarantineStatus, RetentionPolicy,
  is_reprocessing, same_status,
}
use reconciliation_ingestion.Quarantine.Collection.{Collection}
use reconciliation_ingestion.Quarantine.Updates.{Tick, has_action, claim_expired}
use reconciliation_ingestion.Quarantine.Repository as Repo
use reconciliation_ingestion.Quarantine.Repository.{is_reserved, holds_claim}
use reconciliation_ingestion.Quarantine.Queries.{first_event, find_action}
use reconciliation_ingestion.Quarantine.Operations.{undisturbed}
use reconciliation_ingestion.Quarantine.History.{&&-left, &&-right, not-true, ||-left, ||-right}
use reconciliation_ingestion.Resolution.Answers.{ResolutionResult}
use reconciliation_ingestion.Resolution.Ports.{ReprocessMode, ReprocessRequest, Ports, action_for}
use reconciliation_ingestion.Resolution.Service.{settled_result, terminal_resolve}
use reconciliation_ingestion.Resolution.Replay.{stripped_reason}
use reconciliation_ingestion.Resolution.Resolving.{
  is_rejection, perform_reserved, refusal_of, resolve_claimed, rejection, reserve_unless,
  resolve_found, on_reservation,
}

-- One call after another.
pub then_returns :
    {S A B : Type 0} (m : Exec S A) (f : A → Exec S B) (s t : S) (a : A)
    → m s ≡ (ok a, t)
    → (m >>= f) s ≡ f a t
unfolding ◌>>=◌
then_returns m f s t a h = ap (λ u. proceed u.0 f u.1) h

-- The service on the repository, where nobody else writes; `others` has the collaborators beside it.
abbrev pub on_repository :
    {C : Type 0} (c : Collection) → RetentionPolicy → Tick → Ports c.Db C → Ports c.Db C
on_repository c pol tick others = record others {
  find_action = λ k a db. (find_action c k a db, db);
  find_by_id = λ k db. (ok (c.find_one k db), db);
  claim = λ k op a. Repo.claim c k op 900 (some a) tick (undisturbed c);
  reclaim_expired_claim =
      λ k db. let (o, t) = Repo.reclaim_expired_claim c k tick.now db in (ok o, t);
  reserve_action = λ k op a act. Repo.reserve_action c k op a act tick (undisturbed c);
  release_for_retry = λ k op ev. Repo.release_for_retry c k op ev tick (undisturbed c);
  resolve = λ k target op act ev. Repo.resolve c pol k target op act ev tick (undisturbed c);
  escalate = λ k op a expected reason. Repo.escalate c k op a expected reason tick (undisturbed c);
  now = λ db. tick.now;
}

module _ {S C : Type 0} (w : Ports S C) (r : ReprocessRequest) (d : IngestionQuarantineRecord)
    (s t u : S) where
  -- The run of a rejection, call by call.
  pub rejection_runs :
      r.mode ≡ ReprocessMode.reject
      → w.find_action r.record_id r.action_id s ≡ (ok none, s)
      → w.find_by_id r.record_id s ≡ (ok (some d), s)
      → refusal_of w r (w.now s) d ≡ none
      → w.reserve_action r.record_id r.operator_id r.action_id (action_for r.mode) s
        ≡ (ok is_reserved, t)
      → terminal_resolve w d r (rejection w r) t
        ≡ (ok (settled_result w d r (rejection w r) true), u)
      → resolve_claimed w r s ≡ (ok (settled_result w d r (rejection w r) true), u)
  unfolding resolve_claimed
  rejection_runs m f g n v z =
      then_returns _ _ s s none f
      ∙ then_returns _ (resolve_found w r) s s (some d) g
      ∙ then_returns (gets w.now) (λ now. reserve_unless w r d (refusal_of w r now d)) s s (w.now s)
          refl
      ∙ ap (λ o. reserve_unless w r d o s) n
      ∙ then_returns _ (on_reservation w d r) s t is_reserved v
      ∙ ap (λ mode. perform_reserved w d r mode t) m
      ∙ z

same_reprocessing :
    (a b : QuarantineStatus)
    → is_reprocessing a ≡ true
    → b ≡ QuarantineStatus.reprocessing
    → (not (is_reprocessing b) || not (same_status a b)) ≡ false
same_reprocessing QuarantineStatus.reprocessing b p q = rw q refl
same_reprocessing QuarantineStatus.pending b p q = cc p
same_reprocessing QuarantineStatus.resolved b p q = cc p
same_reprocessing QuarantineStatus.rejected b p q = cc p

not_asked : {A : Type 0} (b : Bool) (x : A) → (if b && false then some x else none) ≡ none
not_asked true x = refl
not_asked false x = refl

-- A holder who rejects with a reason is not refused.
pub not_refused :
    {S C : Type 0} (w : Ports S C) (r : ReprocessRequest) (now : ℕ) (d : IngestionQuarantineRecord)
    → r.expected_status ≡ QuarantineStatus.reprocessing
    → holds_claim r.operator_id now d ≡ true
    → str_eq (stripped_reason r.reason) "" ≡ false
    → refusal_of w r now d ≡ none
unfolding refusal_of holds_claim
not_refused w r now d e h b =
    rw
      (
        same_reprocessing d.status r.expected_status (&&-left _ _ h) e,
        &&-left (same_key d.claimed_by (some r.operator_id)) _
            (&&-right (is_reprocessing d.status) _ h),
        not-true (claim_expired d.claim_expires_at now) (
            &&-right (same_key d.claimed_by (some r.operator_id)) _
              (&&-right (is_reprocessing d.status) _ h)),
        b,
      )
      (not_asked (is_rejection w r.mode) _)

pub first_event-none :
    (c : Collection) (a : String) (es : List QuarantineResolutionEvent)
    → any (has_action a) es ≡ false
    → first_event c a es ≡ none
first_event-none c a [] h = refl
first_event-none c a (e ∷ es) h =
    rw (||-left (has_action a e) _ h) (first_event-none c a es (||-right (has_action a e) _ h))

pub first_event-append :
    (c : Collection) (a : String) (es : List QuarantineResolutionEvent)
    (e : QuarantineResolutionEvent)
    → any (has_action a) es ≡ false
    → has_action a e ≡ true
    → first_event c a (es ++ (e ∷ [])) ≡ some e
first_event-append c a [] e h t = rw t refl
first_event-append c a (x ∷ es) e h t =
    rw (||-left (has_action a x) _ h)
      (first_event-append c a es e (||-right (has_action a x) _ h) t)

-- The answer of a rejection that is done.
abbrev pub HasRejected : Result ResolutionResult → Type 0
HasRejected (ok x) =
    (x.success ≡ true) × ((x.status ≡ some QuarantineStatus.rejected) × (x.outcome ≡ "REJECTED"))
HasRejected (err e) = ⊥
