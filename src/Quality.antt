-- ===== src/Quality.antt =====
-- src/domain/ingestion/quality.py and src/application/ingestion/quality_policy.py: the quality language
-- of one source unit, and the action that a summary asks of the orchestration.
pub mod Types
pub mod Summary
pub mod Policy
pub mod Laws
pub mod Founded
pub mod Outcome
