-- ===== src/Ingestion.antt =====
-- The ingestion of one delivered file: src/pipeline/ingestion_pipeline.py and its parts.
pub mod Types
pub mod Files
pub mod Claim
pub mod Finalizer
pub mod Phases
pub mod Pipeline
pub mod Store
pub mod Claimed
pub mod Finished
pub mod Stored
pub mod Failing
pub mod Exits
pub mod Leaving
pub mod Pending
pub mod Claiming
pub mod Settling
pub mod Failures
pub mod Owning
pub mod Races
pub mod Skipped
