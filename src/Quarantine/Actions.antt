-- ===== src/Quarantine/Actions.antt =====
-- The identifiers of actions of src/infrastructure/ingestion/quarantine_repository.py: the filters refuse an action
-- that the record's history has already.
use reconciliation_ingestion.Prelude.{
  ℕ, String, Bool, true, false, ◌||◌, Option, none, some, List, [], ◌∷◌, ◌++◌, any, ◌≡◌, refl, sym,
  inl, inr, subst, Bool-cases, arith,
}
use reconciliation_ingestion.Quarantine.Types.{IngestionQuarantineRecord, QuarantineResolutionEvent}
use reconciliation_ingestion.Quarantine.Updates.{has_action, is_claimable, is_reservable, is_owned}
use reconciliation_ingestion.Quarantine.Escalation.{is_escalatable}
use reconciliation_ingestion.Quarantine.Operations.{
  Operation, claim_it, reclaim_it, reserve_it, release_it, resolve_it, escalate_it,
}
use reconciliation_ingestion.Quarantine.Course.{Steps, IsExtended-Steps}

-- The identifier that a call gives to its action.
abbrev pub action_of : Operation → Option String
action_of (claim_it operator_id lease action_id tick) = action_id
action_of (reclaim_it now) = none
action_of (reserve_it operator_id action_id a tick) = some action_id
action_of (release_it operator_id ev tick) = ev.action_id
action_of (resolve_it p target operator_id a ev tick) = ev.action_id
action_of (escalate_it operator_id action_id expected reason tick) = some action_id

-- The record's history has an event of this action.
abbrev pub is_applied : String → IngestionQuarantineRecord → Bool
is_applied a d = any (has_action a) d.resolution_history

any-extended :
    (p : QuarantineResolutionEvent → Bool) (es xs : List QuarantineResolutionEvent)
    → any p es ≡ true
    → any p (es ++ xs) ≡ true
any-extended p [] xs h = cc h
any-extended p (e ∷ es) xs h = elim (Bool-cases (p e)) [
  | inl q ↦ rw q refl
  | inr q ↦ rw q (any-extended p es xs (subst (λ u. (u || any p es) ≡ true) q h))
]

pub applied-kept :
    (a : String) (d e : IngestionQuarantineRecord)
    → is_applied a d ≡ true
    → Steps d e
    → is_applied a e ≡ true
applied-kept a d e h s =
    let (xs, q) = IsExtended-Steps d e s in
    subst (λ u. any (has_action a) u ≡ true) (sym q)
      (any-extended (has_action a) d.resolution_history xs h)

-- The filters that refuse an applied action.
module _ (a : String) (d : IngestionQuarantineRecord) (h : is_applied a d ≡ true) where
  pub not_claimable : is_claimable (some a) d ≡ false
  unfolding is_claimable
  not_claimable = rw h (ground arith)

  pub not_reservable : (operator_id : String) → is_reservable operator_id a d ≡ false
  unfolding is_reservable
  not_reservable operator_id = rw h (ground arith)

  pub not_owned :
      (operator_id : String) (now : ℕ) (seen : IngestionQuarantineRecord)
      → is_owned operator_id (some a) now seen d ≡ false
  unfolding is_owned
  not_owned operator_id now seen = rw h (ground arith)

  pub not_escalatable :
      (operator_id : String) (now : ℕ) (seen : IngestionQuarantineRecord)
      → is_escalatable operator_id a now seen d ≡ false
  unfolding is_escalatable
  not_escalatable operator_id now seen = rw h (ground arith)
