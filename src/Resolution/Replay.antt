-- ===== src/Resolution/Replay.antt =====
-- The replay of a row by `_resolve_claimed` of src/application/ingestion/quarantine_service.py: its input, its
-- processing and its write, each with the release or the settlement that follows.
use reconciliation_ingestion.Prelude.{
  ℕ, String, Bool, true, false, ◌||◌, Option, none, some, List, str_eq, ltb, get_or, if◌then◌else◌,
}
use reconciliation_ingestion.Result.{Result, ok, err, value_error, Exec}
use reconciliation_ingestion.Quarantine.Texts.{strip}
use reconciliation_ingestion.Quarantine.Values.{no_entries, entry, boolean, integer, string, array}
use reconciliation_ingestion.Quarantine.Types.{
  IngestionQuarantineRecord, QuarantineStatus, reprocess,
}
use reconciliation_ingestion.Quarantine.Updates.{optional_text}
use reconciliation_ingestion.Resolution.Answers.{
  RowIssue, ResolutionResult, first_error, issue_values,
}
use reconciliation_ingestion.Resolution.Ports.{
  ReprocessMode, ReprocessRequest, ResolvedInput, WriteCounts, Ports,
}
use reconciliation_ingestion.Resolution.Service.{
  release, terminal_resolve, plain_release, failed_dependency, caught,
}

abbrev is_staged : String → Bool
is_staged origin = str_eq origin "AUTHORITATIVE_SOURCE_FILE" || str_eq origin "STAGED_RAW_PAGE"

abbrev is_corrected : ReprocessMode → Bool
is_corrected ReprocessMode.corrected_row = true
is_corrected _ = false

-- `(reason or "").strip()`
unfoldable pub stripped_reason : Option String → String
unfolding strip
stripped_reason none = ""
stripped_reason (some s) = strip s

-- `request.row_number or 1`
abbrev row_number_or_one : Option ℕ → ℕ
row_number_or_one none = 1
row_number_or_one (some n) = if ltb 0 n then n else 1

module _ {S C : Type 0} (w : Ports S C) where
  -- The end of a replay, by what the write has counted.
  unfoldable pub settle_written :
      IngestionQuarantineRecord
      → ReprocessRequest
      → ResolvedInput
      → WriteCounts
      → Exec S ResolutionResult
  settle_written d r input counts =
      let source = some (is_staged input.origin) in
      if ltb 0 counts.conflicting_duplicates
      then release w d r
          (record (plain_release w "Reprocessed row still conflicts with an existing transaction."
            "CONFLICT_REMAINS") {
              metadata =
                  entry "conflictingDuplicates" (integer counts.conflicting_duplicates) no_entries;
              source_evidence_available = source;
            })
      else if ltb 0 counts.failed
      then release w d r (record (failed_dependency w source) {
        reason = "Transaction persistence reported a failed write.";
      })
      else terminal_resolve w d r (record {
        target = QuarantineStatus.resolved;
        action = reprocess;
        reason =
            if ltb 0 counts.equivalent_duplicates
            then "Reprocess produced an equivalent existing transaction."
            else "Quarantine row reprocessed successfully.";
        metadata = entry "origin" (string input.origin) (
            entry "mappingVersion" (optional_text input.mapping_version)
              (entry "sourceEvidenceAvailable" (boolean (is_staged input.origin)) no_entries));
        outcome = if ltb 0 counts.equivalent_duplicates then "EQUIVALENT_DUPLICATE" else "RESOLVED";
        failure_classification = none;
        source_evidence_available = source;
      })

  abbrev invalid_row :
      IngestionQuarantineRecord
      → ReprocessRequest
      → ResolvedInput
      → List RowIssue
      → Exec S ResolutionResult
  invalid_row d r input errors =
      release w d r
        (record (plain_release w
          (get_or "Deterministic row validation failed." (first_error errors))
          "VALIDATION_FAILED") {
            metadata = entry "errors" (array (issue_values errors)) no_entries;
            errors = errors;
            source_evidence_available = some (is_staged input.origin);
          })

  abbrev pub write_row :
      IngestionQuarantineRecord
      → ReprocessRequest
      → ResolvedInput
      → List RowIssue
      → Bool
      → Option C
      → Exec S ResolutionResult
  write_row d r input errors true (some row) =
      caught w (w.persist row) (settle_written d r input)
        (release w d r (failed_dependency w (some (is_staged input.origin))))
  write_row d r input errors _ _ = invalid_row d r input errors

  -- The replay of a row, once its input is chosen.
  unfoldable pub replay_row :
      IngestionQuarantineRecord → ReprocessRequest → ResolvedInput → Exec S ResolutionResult
  replay_row d r input =
      caught w (w.process d r input.row (row_number_or_one input.row_number))
        (λ p. write_row d r input p.errors p.is_valid p.data_container)
        (release w d r (failed_dependency w (some (is_staged input.origin))))

  abbrev pub without_input : IngestionQuarantineRecord → ReprocessRequest → Exec S ResolutionResult
  without_input d r =
      release w d r
        (record (if is_corrected r.mode
          then plain_release w "A corrected row is required for this resolution."
              "CORRECTED_ROW_REQUIRED"
          else plain_release w "Authoritative source evidence is unavailable for replay."
              "SOURCE_EVIDENCE_UNAVAILABLE") { source_evidence_available = some false })

  -- `try: ... except ValueError: return ...`
  abbrev pub handled_value_error : {A B : Type 0} → Result A → (A → Exec S B) → Exec S B → Exec S B
  handled_value_error (ok a) f h s = f a s
  handled_value_error (err (value_error m)) f h s = h s
  handled_value_error (err e) f h s = (err e, s)

  unfoldable pub caught_value_error :
      {A B : Type 0} → Exec S A → (A → Exec S B) → Exec S B → Exec S B
  caught_value_error m f h s = let (x, t) = m s in handled_value_error x f h t
