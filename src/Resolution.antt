-- ===== src/Resolution.antt =====
-- The service that resolves quarantine records: src/application/ingestion/quarantine_service.py and
-- quarantine_reprocessing.py.
pub mod Answers
pub mod Results
pub mod Ports
pub mod Service
pub mod Replay
pub mod Resolving
pub mod Claiming
pub mod Outcomes
pub mod Justified
pub mod Rejecting
pub mod Stored
