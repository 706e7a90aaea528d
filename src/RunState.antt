-- ===== src/RunState.antt =====
-- src/pipeline/run_state.py: the mutable state of one ingestion run. A method returns the new record.
-- The fields for stage timings, checkpoints and source context are observability and are left out.
pub mod State
pub mod Defs
pub mod Advance
pub mod Disposition
pub mod Accounting
pub mod DuplicateCounts
