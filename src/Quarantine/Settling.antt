-- ===== src/Quarantine/Settling.antt =====
-- What the holder of a claim can do at src/infrastructure/ingestion/quarantine_repository.py, and what is left behind
-- when a claim runs out.
use reconciliation_ingestion.Prelude.{
  ℕ, ◌+◌, ◌*◌, String, Bool, true, false, Option, none, some, same_key, ◌≡◌, refl, sym, ap, subst,
  arith,
}
use reconciliation_ingestion.Result.{Result, ok}
use reconciliation_ingestion.Quarantine.Types.{
  IngestionQuarantineRecord, QuarantineStatus, QuarantineAction, RetentionPolicy, days_for,
  assert_quarantine_transition, allowed_transitions, is_reprocessing, is_terminal,
}
use reconciliation_ingestion.Quarantine.Collection.{Collection, IsDocumentStore}
use reconciliation_ingestion.Quarantine.Updates.{
  Tick, Evidence, bounded_action_id, is_unused, is_owned, resolved, claim_expired, lease_is_live,
}
use reconciliation_ingestion.Quarantine.Repository.{holds_claim, resolve, resolve_as, resolve_until}
use reconciliation_ingestion.Quarantine.Operations.{undisturbed}
use reconciliation_ingestion.Quarantine.History.{&&-left, &&-right, &&-intro, not-true}

live-lease :
    (d : IngestionQuarantineRecord) (e : Option ℕ) (now : ℕ)
    → d.claim_expires_at ≡ e
    → claim_expired e now ≡ false
    → lease_is_live e now d ≡ true
unfolding claim_expired
live-lease d none now p h = refl
live-lease d (some x) now p h = rw p (ground arith)

owned-of_holder :
    (operator_id : String) (x : Option String) (now : ℕ) (d : IngestionQuarantineRecord)
    → holds_claim operator_id now d ≡ true
    → is_unused x d ≡ true
    → is_owned operator_id x now d d ≡ true
unfolding holds_claim is_owned
owned-of_holder operator_id x now d h u = &&-intro _ _ (&&-left _ _ h) (
    &&-intro _ _ (&&-left _ _ (&&-right (is_reprocessing d.status) _ h)) (
      &&-intro _ _ u (
        live-lease d d.claim_expires_at now refl (
          not-true _ (
            &&-right (same_key d.claimed_by (some operator_id)) _
              (&&-right (is_reprocessing d.status) _ h))))))

terminal-not_reprocessing :
    (t : QuarantineStatus) → is_terminal t ≡ true → is_reprocessing t ≡ true → ⊥
terminal-not_reprocessing QuarantineStatus.reprocessing p q = cc p
terminal-not_reprocessing QuarantineStatus.pending p q = cc q
terminal-not_reprocessing QuarantineStatus.resolved p q = cc q
terminal-not_reprocessing QuarantineStatus.rejected p q = cc q

-- The days of retention of a settled record.
abbrev pub retention_days : RetentionPolicy → QuarantineStatus → ℕ
retention_days pol QuarantineStatus.rejected = pol.rejected_days
retention_days pol _ = pol.resolved_days

module _ (c : Collection) (s : IsDocumentStore c) where
  open c use {Db, find_one, update_one, find_one_and_update}

  -- The record is stored as settled, until the end of its retention, and the answer is yes.
  pub IsSettled : String → QuarantineStatus → ℕ → Result Bool × Db → Type 0
  IsSettled k target until x =
      (x.0 ≡ ok true)
      × ((e : IngestionQuarantineRecord) × ((find_one k x.1 ≡ some e)
            × ((e.status ≡ target) × (e.retention_until ≡ some until))))

  module _ (k operator_id : String) (a : QuarantineAction) (ev : Evidence) (tick : Tick)
      (pol : RetentionPolicy) (db : Db) (d : IngestionQuarantineRecord) (p : find_one k db ≡ some d)
      (h : is_owned operator_id ev.action_id tick.now d d ≡ true) where
    resolved-changes :
        (target : QuarantineStatus) (days : ℕ)
        → is_terminal target ≡ true
        → ¬ (resolved days target operator_id a ev tick d d ≡ d)
    unfolding resolved is_owned
    resolved-changes target days t e =
        terminal-not_reprocessing target t
          (subst (λ u. is_reprocessing u ≡ true) (sym (ap (λ u. u.status) e)) (&&-left _ _ h))

    IsSettled-resolved :
        (target : QuarantineStatus) (days : ℕ)
        → is_terminal target ≡ true
        → IsSettled k target
            (tick.now + days * 86400)
            (resolve_until c k target operator_id a ev tick (undisturbed c) d (ok days) db)
    unfolding IsSettled
    IsSettled-resolved target days t = (
      ap (λ u. ok u)
          (s.update_modified k (is_owned operator_id ev.action_id tick.now d)
            (resolved days target operator_id a ev tick d) db d (λ _. unfold resolved in refl) p h
            (resolved-changes target days t)),
      (
        resolved days target operator_id a ev tick d d,
        (
          s.update_hit k (is_owned operator_id ev.action_id tick.now d)
              (resolved days target operator_id a ev tick d) db d (λ _. unfold resolved in refl) p
              h,
          (unfold resolved in refl, unfold resolved in refl),
        ),
      ),
    )

    IsSettled-until :
        (target : QuarantineStatus)
        → is_terminal target ≡ true
        → IsSettled k target (tick.now + retention_days pol target * 86400) (
            resolve_until c k target operator_id a ev tick
              (undisturbed c)
              d
              (days_for pol target)
              db)
    unfolding days_for
    IsSettled-until QuarantineStatus.resolved t =
        IsSettled-resolved QuarantineStatus.resolved pol.resolved_days t
    IsSettled-until QuarantineStatus.rejected t =
        IsSettled-resolved QuarantineStatus.rejected pol.rejected_days t
    IsSettled-until QuarantineStatus.pending t = cc t
    IsSettled-until QuarantineStatus.reprocessing t = cc t

  terminal_is_a_target :
      (t : QuarantineStatus)
      → is_terminal t ≡ true
      → assert_quarantine_transition QuarantineStatus.reprocessing t ≡ ok tt
  unfolding assert_quarantine_transition allowed_transitions
  terminal_is_a_target QuarantineStatus.resolved p = refl
  terminal_is_a_target QuarantineStatus.rejected p = refl
  terminal_is_a_target QuarantineStatus.pending p = cc p
  terminal_is_a_target QuarantineStatus.reprocessing p = cc p

  -- Who holds the claim can settle the record: where the stored record is REPROCESSING and claimed by the
  -- operator, whose claim has not run out, resolving it as RESOLVED or REJECTED with an action that its history
  -- does not have, on a database that nobody else writes to meanwhile, answers yes and stores the record as
  -- asked for, to be kept for the days that the policy gives for that status.
  pub holder_settles :
      (k operator_id : String) (a : QuarantineAction) (ev : Evidence) (tick : Tick)
      (pol : RetentionPolicy) (target : QuarantineStatus) (x : Option String) (db : Db)
      (d : IngestionQuarantineRecord)
      → find_one k db ≡ some d
      → holds_claim operator_id tick.now d ≡ true
      → is_terminal target ≡ true
      → bounded_action_id ev.action_id ≡ ok x
      → is_unused x d ≡ true
      → IsSettled k target
          (tick.now + retention_days pol target * 86400)
          (resolve c pol k target operator_id a ev tick (undisturbed c) db)
  unfolding resolve
  holder_settles k operator_id a ev tick pol target x db d p h t b u =
      subst (IsSettled k target (tick.now + retention_days pol target * 86400)) (sym computed) (
        IsSettled-until k operator_id a (record ev { action_id = x }) tick pol db d p
          (owned-of_holder operator_id x tick.now d h u) target t)
    where
      computed :
          resolve_as c pol k target operator_id a ev tick
            (undisturbed c)
            (assert_quarantine_transition QuarantineStatus.reprocessing target)
            (bounded_action_id ev.action_id)
            db
          ≡ resolve_until c k target operator_id a
              (record ev { action_id = x })
              tick
              (undisturbed c)
              d
              (days_for pol target)
              db
      computed = rw (b, terminal_is_a_target target t, p, h) refl

  -- Resolving a record as REJECTED, with the database that it leaves.
  pub resolve-rejected :
      (k operator_id : String) (a : QuarantineAction) (ev : Evidence) (tick : Tick)
      (pol : RetentionPolicy) (x : Option String) (db : Db) (d : IngestionQuarantineRecord)
      → find_one k db ≡ some d
      → holds_claim operator_id tick.now d ≡ true
      → bounded_action_id ev.action_id ≡ ok x
      → is_unused x d ≡ true
      → let e = record ev { action_id = x } in
        let f = resolved pol.rejected_days QuarantineStatus.rejected operator_id a e tick d in
        let left = (update_one k (is_owned operator_id x tick.now d) f db).1 in
        (resolve c pol k QuarantineStatus.rejected operator_id a ev tick (undisturbed c) db
          ≡ (ok true, left))
        × (find_one k left ≡ some (f d))
  unfolding resolve days_for assert_quarantine_transition allowed_transitions
  resolve-rejected k operator_id a ev tick pol x db d p h b u =
      let e = record ev { action_id = x } in
      let f = resolved pol.rejected_days QuarantineStatus.rejected operator_id a e tick d in
      let q = is_owned operator_id x tick.now d in
      let o = owned-of_holder operator_id x tick.now d h u in
      (
        rw (b, p, h)
            (ap (λ done. (ok done, (update_one k q f db).1))
              (s.update_modified k q f db d (λ _. unfold resolved in refl) p o
                (resolved-changes k operator_id a e tick pol db d p o QuarantineStatus.rejected
                  pol.rejected_days refl))),
        s.update_hit k q f db d (λ _. unfold resolved in refl) p o,
      )
