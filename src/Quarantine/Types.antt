-- ===== src/Quarantine/Types.antt =====
-- The contracts of src/domain/ingestion/quarantine.py. A time is a number of seconds. Of an error's
-- dictionary the keys that the code reads are kept; `reconciliation_date` and the row are passed on unread.
use reconciliation_ingestion.Prelude.{
  ℕ, ◌+◌, ◌*◌, String, Bool, true, false, ◌||◌, Option, none, some, List, [], ◌∷◌, any, str_eq,
  or_else, if◌then◌else◌,
}
use reconciliation_ingestion.Result.{Result, ok, err, raised, value_error}
use reconciliation_ingestion.Quarantine.Values.{Value, Entries}

pub data QuarantineStatus : Type 0 where
  pending reprocessing resolved rejected : QuarantineStatus

pub data QuarantineAction : Type 0 where
  reprocess accept_existing reject escalate : QuarantineAction

pub data QuarantinePriority : Type 0 where
  normal high : QuarantinePriority

pub data QuarantinePhase : Type 0 where
  normalization validation batch : QuarantinePhase

pub data QuarantineSeverity : Type 0 where
  on_record fatal : QuarantineSeverity

-- `current is QuarantineStatus.X`
abbrev pub is_pending : QuarantineStatus → Bool
is_pending QuarantineStatus.pending = true
is_pending _ = false

abbrev pub is_reprocessing : QuarantineStatus → Bool
is_reprocessing QuarantineStatus.reprocessing = true
is_reprocessing _ = false

abbrev pub is_resolved : QuarantineStatus → Bool
is_resolved QuarantineStatus.resolved = true
is_resolved _ = false

abbrev pub is_rejected : QuarantineStatus → Bool
is_rejected QuarantineStatus.rejected = true
is_rejected _ = false

-- {"$in": ["PENDING", "REPROCESSING"]}
abbrev pub is_active : QuarantineStatus → Bool
is_active s = is_pending s || is_reprocessing s

-- {"$in": ["RESOLVED", "REJECTED"]}
abbrev pub is_terminal : QuarantineStatus → Bool
is_terminal s = is_resolved s || is_rejected s

abbrev pub same_status : QuarantineStatus → QuarantineStatus → Bool
same_status QuarantineStatus.pending s = is_pending s
same_status QuarantineStatus.reprocessing s = is_reprocessing s
same_status QuarantineStatus.resolved s = is_resolved s
same_status QuarantineStatus.rejected s = is_rejected s

abbrev pub same_action : QuarantineAction → QuarantineAction → Bool
same_action reprocess reprocess = true
same_action accept_existing accept_existing = true
same_action reject reject = true
same_action escalate escalate = true
same_action _ _ = false

pub record RetentionPolicy : Type 0 where
  pub resolved_days : ℕ
  pub rejected_days : ℕ
  pub sanitized_row_days : ℕ

-- The defaults of the fields.
abbrev pub default_policy : RetentionPolicy
default_policy = record { resolved_days = 90; rejected_days = 365; sanitized_row_days = 30 }

unfoldable pub days_for : RetentionPolicy → QuarantineStatus → Result ℕ
days_for p QuarantineStatus.resolved = ok p.resolved_days
days_for p QuarantineStatus.rejected = ok p.rejected_days
days_for p _ = err (value_error "Retention applies only to terminal quarantine statuses")

-- `_ALLOWED_QUARANTINE_TRANSITIONS`
unfoldable pub allowed_transitions : QuarantineStatus → List QuarantineStatus
allowed_transitions QuarantineStatus.pending = QuarantineStatus.reprocessing ∷ []
allowed_transitions QuarantineStatus.reprocessing =
    QuarantineStatus.pending ∷ QuarantineStatus.resolved ∷ QuarantineStatus.rejected ∷ []
allowed_transitions QuarantineStatus.resolved = []
allowed_transitions QuarantineStatus.rejected = []

unfoldable pub assert_quarantine_transition :
    QuarantineStatus → QuarantineStatus → Result (Unit {0})
unfolding allowed_transitions
assert_quarantine_transition current target =
    if any (same_status target) (allowed_transitions current)
    then ok tt
    else err (raised "QuarantineTransitionError")

pub record QuarantineResolutionEvent : Type 0 where
  pub event_id : String
  pub from_status : QuarantineStatus
  pub to_status : QuarantineStatus
  pub action : QuarantineAction
  pub actor : String
  pub reason : String
  pub attempt : ℕ
  pub action_id : Option String
  pub outcome : Option String
  pub timestamp : ℕ
  pub metadata : Entries

-- The keys of one error that the code reads.
pub record RowError : Type 0 where
  pub error_code : Option String
  pub error_code_snake : Option String
  pub code : Option String

-- `active_action` is the `activeActionId` and what is stored with it, which the collection's documents carry
-- beside the fields of the model.
pub record ActiveAction : Type 0 where
  pub action_id : String
  pub actor : String
  pub action : QuarantineAction
  pub started_at : ℕ

pub record IngestionQuarantineRecord : Type 0 where
  pub id : String
  pub source_file_id : String
  pub source_unit_key : Option String
  pub review_packet_id : Option String
  pub post_approval_run_id : Option String
  pub partner : String
  pub reconciliation_date : ℕ
  pub row_number : Option ℕ
  pub raw_row : Value
  pub ingestion_key : Option String
  pub incoming_fingerprint : Option String
  pub existing_fingerprint : Option String
  pub errors : List RowError
  pub phase : QuarantinePhase
  pub severity : QuarantineSeverity
  pub config_version : Option String
  pub status : QuarantineStatus
  pub priority : QuarantinePriority
  pub review_due_at : Option ℕ
  pub escalation_level : ℕ
  pub escalated_at : Option ℕ
  pub escalated_by : Option String
  pub last_action_id : Option String
  pub attempt_count : ℕ
  pub expires_at : Option ℕ
  pub claimed_by : Option String
  pub claimed_at : Option ℕ
  pub claim_expires_at : Option ℕ
  pub last_attempt_error : Option String
  pub resolution_metadata : Entries
  pub resolution_history : List QuarantineResolutionEvent
  pub retention_until : Option ℕ
  pub created_at : ℕ
  pub updated_at : ℕ
  pub active_action : Option ActiveAction

-- `value or …`: an empty text counts as none.
abbrev pub non_empty : Option String → Option String
non_empty none = none
non_empty (some s) = if str_eq s "" then none else some s

-- error.get("errorCode") or error.get("error_code") or error.get("code")
unfoldable pub code_of : RowError → Option String
code_of e = or_else (non_empty e.error_code) (or_else (non_empty e.error_code_snake) e.code)

abbrev is_conflict : Option String → Bool
is_conflict none = false
is_conflict (some c) = str_eq c "CONFLICTING_DUPLICATE"

abbrev pub is_fatal : QuarantineSeverity → Bool
is_fatal fatal = true
is_fatal on_record = false

-- `_set_operator_defaults`, given the setting `ingestion_quarantine_review_sla_hours`.
unfoldable set_operator_defaults : ℕ → IngestionQuarantineRecord → IngestionQuarantineRecord
unfolding code_of
set_operator_defaults sla_hours r = record r {
  priority =
      if is_fatal r.severity || any (λ e. is_conflict (code_of e)) r.errors
      then high
      else r.priority;
  review_due_at = or_else r.review_due_at (some (r.created_at + sla_hours * 3600));
}
