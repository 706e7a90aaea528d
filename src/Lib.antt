-- ===== src/Lib.antt =====
-- Reconciliation ingestion: the core of the platform that ingests a partner's transactions, unit by unit and
-- row by row.
--
-- The program's parts and how they interact. A stream of source units (files, pages) is gone through by
-- `process_source_units`, which claims each unit at the checkpoint repository, has a worker ingest it, and
-- then completes, fails or releases it there. The repository keeps one document for each stream, which
-- several workers and operators change by atomic updates. The worker runs the ingestion pipeline on the unit's file:
-- it claims the file by its hash, prepares a configuration, inspects the file's structure, has the rows processed
-- and stores the outcome in the file's record. The rows are gone through one by one: the row batch
-- coordinator places each row in a batch or in quarantine, has the batch writer persist the batches, and
-- keeps the counters of the run state, from which the quality summary and the orchestration action come. A row
-- is checked by the validator, and the keys of a delivery tell its scope. A rejected row waits in quarantine as
-- a record that operators claim, escalate, reprocess, accept or reject through the resolution service, which
-- reserves each action on the record before it acts, so that a repeated request is answered from the record.
--
-- Which file models which part:
--   Checkpoint/Types        src/domain/ingestion/checkpoints.py: the document of a stream.
--   Checkpoint/Timeline,    src/infrastructure/ingestion/checkpoint_repository.py: `_unit_timeline_update`;
--     ClaimQuery, Claim,    the query and updates of `claim_unit`, and `create_or_get` and `claim_unit`; the
--     Updates, Transitions, queries and updates of `mark_failed`, `release_for_review`, `resolve_blocked`,
--     ReviewUpdates, Review `mark_completed` and `advance`, and the calls; the operations after a review. An
--                           update is its query on the stored document and the fields it sets.
--   Checkpoint/Collection   the document database, a parameter with what its driver documents.
--   Checkpoint/Units, Fencing, Attempt, Eligible, Exclusion, Lifecycle, Operations   proofs: the timeline, who
--                           may end a unit, the course of a claim, which units are given away, who wins, the
--                           steps of a document, the operations as steps.
--   Retry                   src/domain/ingestion/retry_policy.py.
--   Orchestrator/Outcome    src/domain/ingestion/source_units.py: `IngestionOutcome.from_result`.
--   Orchestrator/Ports,     src/application/ingestion/source_unit_orchestrator.py: the collaborators and the
--     Process               results, and `process_source_units`, one function for each way a round ends; Rounds, Order
--                           and Failures hold the proofs.
--   Orchestrator/Resume     src/application/automation/stream_identity.py: `units_after_checkpoint`.
--   Quality                 src/domain/ingestion/quality.py and src/application/ingestion/quality_policy.py.
--   Counter                 the dictionaries of counts of the two.
--   Duplicates              src/domain/partner_transaction/duplicates.py: the result of a batch write.
--   RunState                src/pipeline/run_state.py: `IngestionRunState`, its fields and samples in State, the
--                           recording of outcomes in Defs; Advance, Disposition, Accounting and DuplicateCounts hold
--                           the proofs.
--   RowBatch/Writer,        src/pipeline/batch_writer.py and src/pipeline/row_batch_coordinator.py; `Run` is what
--     Coordinator           the coordinator mutates, `Buffers` the local variables of its `run`.
--   RowBatch/Answers, Carried, Owed, Accounting, Returns   the proofs about `run`: what is owed to the counters
--                           between two rounds, and that it comes to its end.
--   Ingestion/Types         src/domain/ingestion/models.py and src/application/ingestion/contracts.py: the file record,
--                           the command and the result; the counters of quality in a result are left out.
--   Ingestion/Files         src/infrastructure/ingestion/file_repository.py, over the collection of file records, a
--                           parameter; Store holds what its driver documents.
--   Ingestion/Claim         src/pipeline/file_claim.py: the claim of a file and the key of a fetched unit.
--   Ingestion/Finalizer     src/pipeline/finalizer.py; `World` is what a run changes.
--   Ingestion/Phases,       src/pipeline/ingestion_pipeline.py: its collaborators and what is recorded of a
--     Pipeline              configuration and a file's structure; `_process_file` and its phases.
--   Ingestion/Claimed, Finished, Stored, Failing, Exits, Leaving, Pending, Claiming, Settling, Failures, Owning,
--     Races, Skipped        proofs: a claim's answer, the two ends of a run, what each result says, where a run may stop,
--                           the pipeline's result, two claims of one file, a file that is there already.
--   Validation              src/validators/validator.py: the rules in Rules; Verdict holds the proof.
--   Scope                   src/reconciliation/scope.py: `classify_key_scope` in Keys, `classify_scope` in Files;
--                           Choice and Counts hold the proofs.
--   Quarantine/Texts,       src/domain/ingestion/quarantine.py: normalisation of texts, priorities and codes;
--     Values, Types, Issues the records, events and issues.
--   Quarantine/Updates,     src/infrastructure/ingestion/quarantine_repository.py: the queries and the fields
--     Escalation,           set by each update; escalation and its due time; the calls of the repository;
--     Repository, Queries,  its reads and the filters of its lists, and the purge of records past their
--     Summaries             retention; the summaries of the queue.
--   Quarantine/Collection   the collection of records, a parameter with what its driver documents.
--   Quarantine/Lifecycle, History, Invariant, Course, Operations, Actions, Once, Settling, Leftover, Counts,
--     Totals, Blocking, Purging, Lost, Categories, Secrets, Redaction   proofs: the steps of a record and the invariant they
--                           keep, the calls as steps, an action applied once, the summary's totals, what a purge
--                           leaves, a claim that is lost, the codes of a category, what texts let through.
--   Resolution/Answers,     src/application/ingestion/quarantine_service.py and quarantine_reprocessing.py: the
--     Results, Ports,       answers and their counters; the answer to a repeated request; the collaborators and
--     Service, Replay,      the choice of an input; the audit, the release and the settling of a record; the replay of
--     Resolving, Claiming   a row; the reserved actions; `claim`, `escalate` and `resolve`.
--   Resolution/Outcomes, Justified, Rejecting, Stored   proofs: the counters, what a success rests on, a
--                           repeated request.
--   Result, Prelude         calls that may raise over a state; the shared names, tests and lemmas.
--   Examples                the theorems on concrete inputs, and collections of documents and records in memory.
--
-- Numbers and times are natural numbers (seconds for a time); Python's integers do not overflow. A check that a
-- number is not negative has then nothing to refuse. The ratios of a scope are compared by products, which
-- agrees with floating point for counts below 2 ^ 50. Every loop is a recursion on its list: nothing runs on
-- fuel. A raise is an error value, and what was written before it stays written.
--
-- Parameters: the database, the row processor and the two repositories that the coordinator is given, the
-- collaborators of `process_source_units` with the sanitizer of error texts, and the writes that other workers
-- make between two database calls of `claim_unit`. For the quarantine they are the collection of records, the
-- writes of others between two calls of it, and the collaborators of the service: the row processor, the writer,
-- the audit recorder and the reader of fingerprints. For the validator it is the text that formatting gives of
-- a value. For the pipeline they are the collection of file records, whose update may be made although it raises,
-- the hash of a file and of an identity, the two counts of `classify_scope`, the preparation of a configuration,
-- the inspection of a file, the reader of its rows and the recorder of a configuration's health.
--
-- Not modelled: timings, logs, stage events and error texts of the row pipeline, which decide nothing;
-- `update_source_context` and the list queries of the checkpoint repository; `resume_held_source_unit`;
-- `rebind_source_file` and the text of page cursors in the quarantine repository; the fallbacks of the service
-- for collaborators of another shape; letters and digits outside ASCII,
-- in a change of case and in the names of fields; the evidence of a violation;
-- the check that a pipeline has its repositories, and the text of a stage summary; a pipeline that reads a row
-- while it writes another, since all rows are read first; the normalizer and the inspection of the quality gate;
-- the limit of 96 characters of an error code that `process_source_units` sanitizes, whose sanitizer is one parameter
-- for codes and messages; the clock that `summarize` reads twice where no time is given, here once;
-- the readers, fetchers, API, dashboards and SQL, which are input and output.
pub mod Prelude
pub mod Counter
pub mod Quality
pub mod Duplicates
pub mod RunState
pub mod Result
pub mod RowBatch
pub mod Checkpoint
pub mod Retry
pub mod Orchestrator
pub mod Quarantine
pub mod Resolution
pub mod Validation
pub mod Scope
pub mod Ingestion
mod Examples
