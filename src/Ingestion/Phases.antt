-- ===== src/Ingestion/Phases.antt =====
-- What the phases of src/pipeline/ingestion_pipeline.py work with: the collaborators, the results, and what is
-- recorded of a configuration and of a file's structure.
use reconciliation_ingestion.Prelude.{
  String, Bool, true, ◌&&◌, ◌||◌, Option, none, some, List, [], ◌∷◌, map, any, str_eq, same_key,
  ltb, leb, ◌==◌,
}
use reconciliation_ingestion.Result.{Result}
use reconciliation_ingestion.Quality.Types.{
  QualityViolation, QualityEvaluation, QualityPhase, QualitySeverity, QualityOutcome, evaluation,
  source_structure_unreadable, config_validation,
}
use reconciliation_ingestion.RunState.State.{IngestionRunState, ErrorEntry, add_violations}
use reconciliation_ingestion.RunState.Defs.{is_partial, quality_summary, record_quality_evaluation}
use reconciliation_ingestion.RowBatch.Coordinator.{Collaborators}
use reconciliation_ingestion.Scope.Files.{ScopeCounts}
use reconciliation_ingestion.Ingestion.Types.{ReconciliationFile, RunOutcome, IngestionResult}
use reconciliation_ingestion.Ingestion.Claim.{Digests}

-- The answer of the configuration phase: a configuration, `ConfigurationApprovalRequiredError`, or
-- `ConfigLoadError` with its message and its validation errors.
pub data Preparation (Config : Type 0) : Type 0 where
  prepared : Config → Preparation Config
  approval_required : Preparation Config
  load_error : String → List QualityViolation → Preparation Config

-- The answer of `FileQualityGate.evaluate`: an evaluation, or `SourceStructureUnreadableError`.
pub data Inspection : Type 0 where
  inspected : QualityEvaluation → Inspection
  unreadable : String → Inspection

-- What the pipeline is built with, and the texts that the environment gives.
pub record Ports (Config Row Container : Type 0) : Type 0 where
  pub digests : Digests
  pub counts : ScopeCounts String
  pub summary_of : IngestionRunState → String
  pub prepare : ReconciliationFile → Result (Preparation Config)
  pub inspect : Config → Result Inspection
  pub read_rows : Config → Result (List Row)
  pub collaborators : Config → Collaborators Row Container
  pub record_run_health : IngestionRunState → Result (Unit {0})

-- `is_missing_ingestion_key_failure` of src/application/ingestion/contracts.py.
abbrev has_field : String → List ErrorEntry → Bool
has_field f es = any (λ e. same_key e.field (some f)) es

unfoldable pub is_missing_ingestion_key_failure : IngestionRunState → Bool
is_missing_ingestion_key_failure s =
    ltb 0 s.total_rows
    && (s.success_rows == 0
        && (leb s.total_rows s.failed_rows
            && ((has_field "id" s.errors || any (str_eq "id") s.error_fields)
                && (has_field "trace" s.errors || any (str_eq "trace") s.error_fields))))

abbrev pub partial_if : Bool → RunOutcome → RunOutcome
partial_if true RunOutcome.ingested = RunOutcome.partial
partial_if _ o = o

-- `_build_result`
unfoldable pub build_result :
    RunOutcome → Option String → Option ReconciliationFile → IngestionRunState → IngestionResult
build_result outcome code file s = record {
  file_record = file;
  stats = record {
    total_rows = s.total_rows;
    success_rows = s.success_rows;
    failed_rows = s.failed_rows;
    duplicate_rows = s.duplicate_rows;
  };
  errors = s.errors;
  outcome = partial_if (is_partial s) outcome;
  duplicate_code = code;
  ingestion_keys = s.ingestion_keys;
  quality_decision = s.quality_decision;
  quality_summary = quality_summary s;
  orchestration_action = s.orchestration_action;
  error_fields = s.error_fields;
}

abbrev pub field_error : String → ErrorEntry
field_error f = record { field = some f; error_code = none }

-- `_record_quality_evaluation`
unfoldable pub record_gate : QualityEvaluation → IngestionRunState → IngestionRunState
record_gate e s = add_violations e.violations (record_quality_evaluation e s)

abbrev as_configuration : QualityViolation → QualityViolation
as_configuration v = record v {
  phase = QualityPhase.configuration;
  severity = QualitySeverity.fatal;
  outcome = QualityOutcome.batch_fatal;
}

abbrev file_violation : QualityViolation → QualityEvaluation
file_violation v = evaluation QualityOutcome.batch_fatal (v ∷ []) none

-- The violations of a configuration that cannot be loaded.
unfoldable pub configuration_violations : String → List QualityViolation → List QualityViolation
configuration_violations message [] =
    record {
      code = config_validation;
      phase = QualityPhase.configuration;
      severity = QualitySeverity.fatal;
      outcome = QualityOutcome.batch_fatal;
      field = some "_config";
      message = message;
      row = none;
      trace = none;
    }
    ∷ []
configuration_violations message (v ∷ vs) = map as_configuration (v ∷ vs)

unfoldable pub unreadable_evaluation : String → QualityEvaluation
unfolding evaluation
unreadable_evaluation message = file_violation (record {
  code = source_structure_unreadable;
  phase = QualityPhase.file;
  severity = QualitySeverity.fatal;
  outcome = QualityOutcome.batch_fatal;
  field = some "_file";
  message = message;
  row = none;
  trace = none;
})
