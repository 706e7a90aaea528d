-- ===== src/RowBatch.antt =====
-- src/pipeline/row_batch_coordinator.py and src/pipeline/batch_writer.py: the row loop of one file, its
-- batches and its quarantine writes.
pub mod Records
pub mod Writer
pub mod Answers
pub mod Coordinator
pub mod Carried
pub mod Owed
pub mod Accounting
pub mod Returns
