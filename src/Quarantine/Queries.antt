-- ===== src/Quarantine/Queries.antt =====
-- The reads of src/infrastructure/ingestion/quarantine_repository.py, and `purge_expired`. The text of a page's cursor
-- is the time and the identifier that it is made of.
use Prim.Native.Nat.{Ordering}
use Prim.Native.String.{compare}
use reconciliation_ingestion.Prelude.{
  ℕ, ◌+◌, min, max, String, Bool, true, false, ◌&&◌, ◌||◌, not, Option, none, some, List, [], ◌∷◌,
  any, same_key, str_eq, ltb, leb, ◌==◌, length, take, if◌then◌else◌,
}
use reconciliation_ingestion.Result.{Result, ok, err, value_error}
use reconciliation_ingestion.Quarantine.Types.{
  IngestionQuarantineRecord, QuarantineResolutionEvent, QuarantineStatus, QuarantinePhase,
  normalization, validation, batch, QuarantinePriority, normal, high, is_pending, is_active,
  is_terminal, same_status,
}
use reconciliation_ingestion.Quarantine.Issues.{IssueType, error_codes_for_issue_type}
use reconciliation_ingestion.Quarantine.Collection.{
  Collection, created_at, created_at_id, retention_until_id,
}
use reconciliation_ingestion.Quarantine.Updates.{at_most, later_than, has_action, bounded_action_id}

pub record QuarantineQuery : Type 0 where
  pub partner : Option String
  pub status : Option QuarantineStatus
  pub phase : Option QuarantinePhase
  pub error_code : Option String
  pub source_file_id : Option String
  pub source_unit_key : Option String
  pub review_packet_id : Option String
  pub post_approval_run_id : Option String
  pub claimed_by : Option String
  pub priority : Option QuarantinePriority
  pub issue_type : Option IssueType
  pub overdue : Option Bool
  pub from_date : Option ℕ
  pub to_date : Option ℕ
  pub limit : ℕ
  pub cursor : Option (ℕ × String)

-- `_bounded_limit`
unfoldable pub bounded_limit : ℕ → ℕ → ℕ
bounded_limit value maximum = max 1 (min value maximum)

-- A filter that is there only where the query asks for it.
abbrev asked {ℓ} : {A : Type ℓ} → Option A → (A → Bool) → Bool
asked none p = true
asked (some a) p = p a

abbrev same_phase : QuarantinePhase → QuarantinePhase → Bool
same_phase normalization normalization = true
same_phase validation validation = true
same_phase batch batch = true
same_phase _ _ = false

abbrev pub is_high : QuarantinePriority → Bool
is_high high = true
is_high normal = false

abbrev same_priority : QuarantinePriority → QuarantinePriority → Bool
same_priority high p = is_high p
same_priority normal p = not (is_high p)

-- {"errors.errorCode": code}
abbrev pub has_error : String → IngestionQuarantineRecord → Bool
has_error code d = any (λ e. same_key e.error_code (some code)) d.errors

-- {"errors.errorCode": {"$in": codes}}
abbrev has_error_in : List String → IngestionQuarantineRecord → Bool
has_error_in codes d = any (λ code. has_error code d) codes

-- `filters["errors.errorCode"]`: the issue type's codes take the place of the code.
abbrev matches_error : Option String → Option IssueType → IngestionQuarantineRecord → Bool
matches_error code (some t) d = has_error_in (error_codes_for_issue_type t) d
matches_error none none d = true
matches_error (some code) none d = has_error code d

abbrev is_unset {ℓ} : {A : Type ℓ} → Option A → Bool
is_unset none = true
is_unset (some a) = false

abbrev matches_due : Option Bool → Option QuarantineStatus → ℕ → IngestionQuarantineRecord → Bool
matches_due none s now d = true
matches_due (some true) s now d =
    (not (is_unset s) || is_active d.status) && at_most d.review_due_at now
matches_due (some false) s now d = later_than d.review_due_at now

abbrev text_after : String → String → Bool
text_after a b = elim (compare a b) [ Ordering.gt ↦ true | _ ↦ false ]

abbrev is_after : ℕ × String → IngestionQuarantineRecord → Bool
is_after (t, k) d = ltb t d.created_at || (d.created_at == t && text_after d.id k)

-- `_query_filters`
unfoldable pub matches : QuarantineQuery → ℕ → IngestionQuarantineRecord → Bool
unfolding error_codes_for_issue_type
matches q now d =
    asked q.partner (λ x. str_eq d.partner x)
    && (asked q.status (λ x. same_status x d.status)
        && (asked q.phase (λ x. same_phase x d.phase)
            && (matches_error q.error_code q.issue_type d
                && (asked q.source_file_id (λ x. str_eq d.source_file_id x)
                    && (asked q.source_unit_key (λ x. same_key d.source_unit_key (some x))
                        && (asked q.review_packet_id (λ x. same_key d.review_packet_id (some x))
                            && (asked q.post_approval_run_id
                                  (λ x. same_key d.post_approval_run_id (some x))
                                && (asked q.claimed_by (λ x. same_key d.claimed_by (some x))
                                    && (asked q.priority (λ x. same_priority x d.priority)
                                        && (matches_due q.overdue q.status now d
                                            && (asked q.from_date (λ x. leb x d.created_at)
                                                && (asked q.to_date (λ x. ltb d.created_at x)
                                                    && asked q.cursor
                                                        (λ x. is_after x d)))))))))))))

-- The filter of `purge_expired`.
unfoldable pub is_purgeable : ℕ → IngestionQuarantineRecord → Bool
is_purgeable now d = is_terminal d.status && at_most d.retention_until now

-- The filters of `find_blockers` and `has_unresolved_blockers`.
unfoldable pub is_blocker : String → IngestionQuarantineRecord → Bool
is_blocker key d = same_key d.source_unit_key (some key) && is_active d.status

abbrev pub conflict_code : String
conflict_code = "CONFLICTING_DUPLICATE"

unfoldable pub is_unresolved_conflict : String → IngestionQuarantineRecord → Bool
unfolding is_blocker
is_unresolved_conflict key d = is_blocker key d && has_error conflict_code d

abbrev last_of {ℓ} : {A : Type ℓ} → List A → Option A
last_of [] = none
last_of (x ∷ xs) = elim (last_of xs) [ none ↦ some x | some y ↦ some y ]

abbrev cursor_of : Option IngestionQuarantineRecord → Option (ℕ × String)
cursor_of none = none
cursor_of (some d) = some (d.created_at, d.id)

-- `find_many` after its query has been answered, with one record more than the page holds.
unfoldable page_of :
    ℕ → List IngestionQuarantineRecord → List IngestionQuarantineRecord × Option (ℕ × String)
page_of limit records =
    let shown = take limit records in
    (shown, if ltb limit (length records) then cursor_of (last_of shown) else none)

module _ (c : Collection) where
  open c use {Db, find, find_first, find_one, delete_one}

  -- `find_pending`
  unfoldable find_pending : Option String → ℕ → Db → List IngestionQuarantineRecord
  unfolding bounded_limit
  find_pending partner limit =
      find (λ d. is_pending d.status && asked partner (λ x. str_eq d.partner x)) created_at
        (some (bounded_limit limit 200))

  -- `find_blockers`
  unfoldable pub find_blockers : String → Db → List IngestionQuarantineRecord
  find_blockers key = find (is_blocker key) created_at_id none

  abbrev is_found : Option IngestionQuarantineRecord → Bool
  is_found none = false
  is_found (some d) = true

  -- `has_unresolved_blockers`
  unfoldable pub has_unresolved_blockers : String → Db → Bool
  has_unresolved_blockers key db = is_found (find_first (is_unresolved_conflict key) db)

  abbrev pub delete_all : List IngestionQuarantineRecord → Db → ℕ × Db
  delete_all [] db = (0, db)
  delete_all (d ∷ ds) db =
      let (n, db') = delete_one d.id db in let (m, db'') = delete_all ds db' in (n + m, db'')

  -- `purge_expired`
  unfoldable pub purge_expired : ℕ → ℕ → Db → Result ℕ × Db
  purge_expired now limit db =
      let (removed, db') =
        delete_all (find (is_purgeable now) retention_until_id (some limit) db) db in
      if ltb limit 1 then (err (value_error "limit must be at least 1"), db) else (ok removed, db')

  -- `find_many` on a query.
  unfoldable find_many :
      QuarantineQuery → ℕ → Db → List IngestionQuarantineRecord × Option (ℕ × String)
  unfolding matches page_of
  find_many q now db = page_of q.limit (find (matches q now) created_at_id (some (q.limit + 1)) db)

  abbrev pub first_event :
      String → List QuarantineResolutionEvent → Option QuarantineResolutionEvent
  first_event a [] = none
  first_event a (e ∷ es) = let rest = first_event a es in if has_action a e then some e else rest

  abbrev event_of : String → Option IngestionQuarantineRecord → Option QuarantineResolutionEvent
  event_of a none = none
  event_of a (some d) = first_event a d.resolution_history

  abbrev find_action_as :
      String → Result (Option String) → Db → Result (Option QuarantineResolutionEvent)
  find_action_as record_id (err e) db = err e
  find_action_as record_id (ok none) db = ok none
  find_action_as record_id (ok (some a)) db = ok (event_of a (find_one record_id db))

  -- `find_action`; a record without the action has no such event.
  unfoldable pub find_action : String → String → Db → Result (Option QuarantineResolutionEvent)
  find_action record_id action_id = find_action_as record_id (bounded_action_id (some action_id))
