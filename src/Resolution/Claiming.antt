-- ===== src/Resolution/Claiming.antt =====
-- `claim`, `escalate` and `resolve` of `QuarantineResolutionService`,
-- src/application/ingestion/quarantine_service.py.
use reconciliation_ingestion.Prelude.{
  ℕ, String, true, false, ◌&&◌, ◌||◌, not, Option, none, some, same_key, str_eq, if◌then◌else◌,
}
use Prim.Native.String.{◌++◌}
use reconciliation_ingestion.Result.{Exec, pure, gets, ◌>>=◌, ◌>>◌}
use reconciliation_ingestion.Quarantine.Texts.{strip, first_chars}
use reconciliation_ingestion.Quarantine.Types.{
  IngestionQuarantineRecord, QuarantineStatus, reprocess, escalate, is_pending, is_reprocessing,
  is_active, same_status,
}
use reconciliation_ingestion.Quarantine.Updates.{claim_expired}
use reconciliation_ingestion.Resolution.Answers.{
  ResolutionResult, plain_result, missing_record, stale_record, refusal,
}
use reconciliation_ingestion.Resolution.Ports.{ReprocessRequest, Ports}
use reconciliation_ingestion.Resolution.Service.{emit_audit}
use reconciliation_ingestion.Resolution.Resolving.{replay_or, resolve_claimed}

module _ {S C : Type 0} (w : Ports S C) where
  abbrev claimed_answer :
      String → String → String → Option IngestionQuarantineRecord → ℕ → Exec S ResolutionResult
  claimed_answer record_id operator_id action_id none attempts =
      pure
        (record (plain_result record_id false (some QuarantineStatus.pending) "CLAIM_NOT_ACQUIRED"
          reprocess) {
            reason = some "Quarantine record could not be claimed.";
            action_id = some action_id;
            previous_status = some QuarantineStatus.pending;
            attempt_count = some attempts;
          })
  claimed_answer record_id operator_id action_id (some d) attempts =
      emit_audit w "QUARANTINE_CLAIMED" d operator_id "Quarantine record claimed for processing."
        action_id QuarantineStatus.pending QuarantineStatus.reprocessing "CLAIMED"
      >> pure
          (record (plain_result record_id true (some QuarantineStatus.reprocessing) "CLAIMED"
            reprocess) {
              action_id = some action_id;
              previous_status = some QuarantineStatus.pending;
              attempt_count = some d.attempt_count;
              escalation_level = some d.escalation_level;
              claimed_by = d.claimed_by;
              priority = some d.priority;
              review_due_at = d.review_due_at;
            })

  abbrev claim_pending :
      String → String → String → IngestionQuarantineRecord → Exec S ResolutionResult
  claim_pending record_id operator_id action_id current =
      w.claim record_id operator_id action_id >>= λ d.
      claimed_answer record_id operator_id action_id d current.attempt_count

  abbrev after_reclaim :
      String
      → String
      → String
      → IngestionQuarantineRecord
      → Option IngestionQuarantineRecord
      → Exec S ResolutionResult
  after_reclaim record_id operator_id action_id current none = pure (stale_record current reprocess)
  after_reclaim record_id operator_id action_id current (some d) =
      if is_pending d.status
      then claim_pending record_id operator_id action_id d
      else pure (stale_record current reprocess)

  abbrev claim_found :
      String
      → String
      → String
      → QuarantineStatus
      → Option IngestionQuarantineRecord
      → Exec S ResolutionResult
  claim_found record_id operator_id action_id expected none =
      pure (missing_record record_id reprocess)
  claim_found record_id operator_id action_id expected (some d) =
      if not (is_pending expected)
      then pure (stale_record d reprocess)
      else if is_pending d.status
      then claim_pending record_id operator_id action_id d
      else gets w.now >>= λ now.
          if is_reprocessing d.status && claim_expired d.claim_expires_at now
          then w.reclaim_expired_claim record_id >>= after_reclaim record_id operator_id action_id d
          else pure (stale_record d reprocess)

  -- `claim`
  unfoldable pub claim : String → String → String → QuarantineStatus → Exec S ResolutionResult
  claim record_id operator_id action_id expected =
      w.find_action record_id action_id
      >>= replay_or w record_id action_id operator_id reprocess (some "CLAIMED")
          (w.find_by_id record_id >>= claim_found record_id operator_id action_id expected)

  abbrev escalated_answer :
      String
      → String
      → String
      → String
      → IngestionQuarantineRecord
      → Option IngestionQuarantineRecord
      → Exec S ResolutionResult
  escalated_answer record_id operator_id action_id reason d none = pure (
      refusal record_id "ESCALATION_CONFLICT" escalate "Quarantine record could not be escalated."
        action_id d)
  escalated_answer record_id operator_id action_id reason d (some e) =
      emit_audit w "QUARANTINE_ESCALATED" d operator_id reason action_id d.status d.status
        "ESCALATED"
      >> pure (record (plain_result record_id true (some d.status) "ESCALATED" escalate) {
        reason = some (first_chars 500 (strip reason));
        action_id = some action_id;
        previous_status = some d.status;
        attempt_count = some d.attempt_count;
        escalation_level = some e.escalation_level;
        claimed_by = e.claimed_by;
        priority = some e.priority;
        review_due_at = e.review_due_at;
      })

  -- The refusals of `escalate`, on the record it has read.
  unfoldable escalation_refusal :
      String
      → String
      → String
      → QuarantineStatus
      → String
      → ℕ
      → IngestionQuarantineRecord
      → Option ResolutionResult
  escalation_refusal record_id operator_id action_id expected reason now d =
      if not (same_status d.status expected) || not (is_active expected)
      then some (stale_record d escalate)
      else if is_reprocessing d.status && not (same_key d.claimed_by (some operator_id))
      then some (
          refusal record_id "WRONG_OWNER" escalate
            "Quarantine record is claimed by another operator." action_id d)
      else if is_reprocessing d.status && claim_expired d.claim_expires_at now
      then some (
          refusal record_id "CLAIM_EXPIRED" escalate
            "The operator claim has expired and can no longer mutate the record." action_id d)
      else if str_eq (strip reason) ""
      then some (
          refusal record_id "REASON_REQUIRED" escalate "Operator reason is required for escalation."
            action_id d)
      else none

  abbrev escalate_unless :
      String
      → String
      → String
      → QuarantineStatus
      → String
      → IngestionQuarantineRecord
      → Option ResolutionResult
      → Exec S ResolutionResult
  escalate_unless record_id operator_id action_id expected reason d (some x) = pure x
  escalate_unless record_id operator_id action_id expected reason d none =
      w.escalate record_id operator_id action_id expected reason
      >>= escalated_answer record_id operator_id action_id reason d

  abbrev escalate_found :
      String
      → String
      → String
      → QuarantineStatus
      → String
      → Option IngestionQuarantineRecord
      → Exec S ResolutionResult
  escalate_found record_id operator_id action_id expected reason none =
      pure (missing_record record_id escalate)
  escalate_found record_id operator_id action_id expected reason (some d) = gets w.now >>= λ now.
      escalate_unless record_id operator_id action_id expected reason d
        (escalation_refusal record_id operator_id action_id expected reason now d)

  -- `escalate`
  unfoldable escalate_record :
      String → String → String → QuarantineStatus → String → Exec S ResolutionResult
  escalate_record record_id operator_id action_id expected reason =
      w.find_action record_id action_id
      >>= replay_or w record_id action_id operator_id escalate none (
          w.find_by_id record_id >>= escalate_found record_id operator_id action_id expected reason)

  abbrev resolve_after : ReprocessRequest → ResolutionResult → Exec S ResolutionResult
  resolve_after r x =
      if x.success
      then resolve_claimed w (record r { expected_status = QuarantineStatus.reprocessing })
      else pure x

  -- `resolve`
  unfoldable pub resolve : ReprocessRequest → Exec S ResolutionResult
  resolve r =
      claim r.record_id r.operator_id (first_chars 120 r.action_id ++ ":claim") r.expected_status
      >>= resolve_after r
