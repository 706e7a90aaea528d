-- ===== src/Resolution/Service.antt =====
-- `QuarantineResolutionService` of src/application/ingestion/quarantine_service.py. Its fallbacks for collaborators
-- that lack an argument or a method are left out: the repository of this program has them.
use reconciliation_ingestion.Prelude.{
  String, Bool, true, false, ◌&&◌, not, Option, none, some, List, [], same_key, str_eq, is_some,
  if◌then◌else◌,
}
use reconciliation_ingestion.Result.{Result, ok, err, Exec, pure, ◌>>=◌, ◌>>◌}
use reconciliation_ingestion.Quarantine.Texts.{strip, first_chars}
use reconciliation_ingestion.Quarantine.Values.{Value, Entries, no_entries, entry, boolean, string}
use reconciliation_ingestion.Quarantine.Types.{
  IngestionQuarantineRecord, QuarantineStatus, QuarantineAction,
}
use reconciliation_ingestion.Resolution.Answers.{
  RowIssue, ResolutionResult, plain_result, operation_counters, record_error_code,
}
use reconciliation_ingestion.Resolution.Ports.{ReprocessRequest, Ports, action_for}

-- What a release is told beside its outcome.
pub record Release : Type 0 where
  pub reason : String
  pub metadata : Entries
  pub outcome : String
  pub errors : List RowIssue
  pub failure_classification : String
  pub source_evidence_available : Option Bool

-- What `_terminal_resolve` is told.
pub record Settlement : Type 0 where
  pub target : QuarantineStatus
  pub action : QuarantineAction
  pub reason : String
  pub metadata : Entries
  pub outcome : String
  pub failure_classification : Option String
  pub source_evidence_available : Option Bool

-- `metadata[key] = value`
abbrev set_entry : String → Value → Entries → Entries
set_entry k v no_entries = entry k v no_entries
set_entry k v (entry j u es) =
    let rest = set_entry k v es in if str_eq j k then entry j v es else entry j u rest

abbrev pub with_source : Option Bool → Entries → Entries
with_source none es = es
with_source (some b) es = set_entry "sourceEvidenceAvailable" (boolean b) es

-- `_record_id`
unfoldable pub record_id_of : IngestionQuarantineRecord → ReprocessRequest → String
record_id_of d r = if str_eq d.id "" then r.record_id else d.id

module _ {S C : Type 0} (w : Ports S C) where
  -- `_emit_audit`
  unfoldable pub emit_audit :
      String
      → IngestionQuarantineRecord
      → String
      → String
      → String
      → QuarantineStatus
      → QuarantineStatus
      → String
      → Exec S (Unit {0})
  emit_audit action d actor reason action_id previous new outcome = w.audit (record {
    action = action;
    record_id = d.id;
    partner = d.partner;
    source_file_id = d.source_file_id;
    source_unit_key = d.source_unit_key;
    error_code = record_error_code d.errors;
    attempt = d.attempt_count;
    actor = actor;
    reason = first_chars 500 (strip reason);
    action_id = some action_id;
    previous_status = some previous;
    new_status = some new;
    outcome = some outcome;
  })

  abbrev audit_if : Bool → Exec S (Unit {0}) → Exec S (Unit {0})
  audit_if true m = m
  audit_if false m = pure tt

  unfoldable pub released_result :
      IngestionQuarantineRecord → ReprocessRequest → Release → Bool → ResolutionResult
  released_result d r x done =
      record (plain_result (record_id_of d r) false
        (some (if done then QuarantineStatus.pending else QuarantineStatus.reprocessing)) x.outcome
        (action_for r.mode)) {
          reason = some x.reason;
          errors = x.errors;
          quality_counters = some (operation_counters x.outcome);
          failure_classification = some x.failure_classification;
          action_id = some r.action_id;
          previous_status = some QuarantineStatus.reprocessing;
          attempt_count = some d.attempt_count;
          source_evidence_available = x.source_evidence_available;
          escalation_level = some d.escalation_level;
          priority = some d.priority;
          review_due_at = d.review_due_at;
        }

  -- `_release`
  unfoldable pub release :
      IngestionQuarantineRecord → ReprocessRequest → Release → Exec S ResolutionResult
  release d r x =
      w.release_for_retry r.record_id r.operator_id (record {
        reason = x.reason;
        metadata = with_source x.source_evidence_available x.metadata;
        action_id = some r.action_id;
        outcome = some x.outcome;
      })
      >>= λ done.
          audit_if done (
            emit_audit "QUARANTINE_RETRY_SCHEDULED" d r.operator_id x.reason r.action_id
              QuarantineStatus.reprocessing QuarantineStatus.pending x.outcome)
          >> pure (released_result d r x done)

  abbrev audit_action : QuarantineAction → String
  audit_action QuarantineAction.accept_existing = "QUARANTINE_ACCEPTED_EXISTING"
  audit_action QuarantineAction.reject = "QUARANTINE_REJECTED"
  audit_action _ = "QUARANTINE_REPROCESSED"

  unfoldable pub settled_result :
      IngestionQuarantineRecord → ReprocessRequest → Settlement → Bool → ResolutionResult
  settled_result d r x done =
      record (plain_result (record_id_of d r) done
        (some (if done then x.target else QuarantineStatus.reprocessing))
        (if done then x.outcome else "RESOLUTION_CONFLICT") x.action) {
          reason = some x.reason;
          quality_counters = some (operation_counters x.outcome);
          failure_classification = x.failure_classification;
          action_id = some r.action_id;
          previous_status = some QuarantineStatus.reprocessing;
          attempt_count = some d.attempt_count;
          source_evidence_available = x.source_evidence_available;
          escalation_level = some d.escalation_level;
          priority = some d.priority;
          review_due_at = d.review_due_at;
        }

  -- What follows the repository's answer.
  abbrev pub settled_answer :
      IngestionQuarantineRecord → ReprocessRequest → Settlement → Bool → Exec S ResolutionResult
  settled_answer d r x done =
      audit_if done (
        emit_audit (audit_action x.action) d r.operator_id x.reason r.action_id
          QuarantineStatus.reprocessing x.target x.outcome)
      >> pure (settled_result d r x done)

  -- `_terminal_resolve`
  unfoldable pub terminal_resolve :
      IngestionQuarantineRecord → ReprocessRequest → Settlement → Exec S ResolutionResult
  terminal_resolve d r x =
      w.resolve r.record_id x.target r.operator_id x.action (record {
        reason = x.reason;
        metadata = with_source x.source_evidence_available x.metadata;
        action_id = some r.action_id;
        outcome = some x.outcome;
      })
      >>= settled_answer d r x

  abbrev pub plain_release : String → String → Release
  plain_release reason outcome = record {
    reason = reason;
    metadata = no_entries;
    outcome = outcome;
    errors = [];
    failure_classification = "DETERMINISTIC_RESOLUTION_FAILURE";
    source_evidence_available = none;
  }

  -- The release after a collaborator has raised.
  abbrev pub failed_dependency : Option Bool → Release
  failed_dependency source =
      record (plain_release "Quarantine reprocess dependency failed." "RETRYABLE_FAILURE") {
        failure_classification = "RETRYABLE_INFRASTRUCTURE";
        source_evidence_available = source;
      }

  -- `try: ... except Exception: return ...`
  abbrev pub handled : {A B : Type 0} → Result A → (A → Exec S B) → Exec S B → Exec S B
  handled (ok a) f h = f a
  handled (err e) f h = h

  unfoldable pub caught : {A B : Type 0} → Exec S A → (A → Exec S B) → Exec S B → Exec S B
  caught m f h s = let (r, t) = m s in handled r f h t

  abbrev mismatch : Release
  mismatch =
      plain_release "Existing transaction fingerprint no longer matches quarantine evidence."
        "FINGERPRINT_MISMATCH"

  abbrev pub accept_current :
      IngestionQuarantineRecord → ReprocessRequest → Option String → Exec S ResolutionResult
  accept_current d r none = release d r mismatch
  accept_current d r (some current) =
      if not (str_eq current "") && same_key (some current) d.existing_fingerprint
      then terminal_resolve d r (record {
        target = QuarantineStatus.resolved;
        action = QuarantineAction.accept_existing;
        reason = "Existing transaction fingerprint accepted by operator.";
        metadata = entry "existingFingerprint" (string current) no_entries;
        outcome = "ACCEPTED_EXISTING";
        failure_classification = none;
        source_evidence_available = none;
      })
      else release d r mismatch

  abbrev pub read_and_accept :
      IngestionQuarantineRecord
      → ReprocessRequest
      → Option (IngestionQuarantineRecord → Exec S (Option String))
      → Exec S ResolutionResult
  read_and_accept d r none = release d r (
      plain_release "Existing transaction fingerprint could not be verified."
        "FINGERPRINT_UNAVAILABLE")
  read_and_accept d r (some read) =
      caught (read d) (accept_current d r) (release d r (failed_dependency none))

  -- `_accept_existing`
  unfoldable pub accept_existing_row :
      IngestionQuarantineRecord → ReprocessRequest → Exec S ResolutionResult
  accept_existing_row d r =
      if is_some r.expected_existing_fingerprint
        && not (same_key r.expected_existing_fingerprint d.existing_fingerprint)
      then release d r mismatch
      else read_and_accept d r w.existing_fingerprint
