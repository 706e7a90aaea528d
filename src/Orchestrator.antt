-- ===== src/Orchestrator.antt =====
-- src/application/ingestion/source_unit_orchestrator.py and the contracts of
-- src/domain/ingestion/source_units.py.
pub mod Outcome
pub mod Ports
pub mod Process
pub mod Rounds
pub mod Order
pub mod Failures
pub mod Resume
