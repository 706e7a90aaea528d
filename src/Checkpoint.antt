-- ===== src/Checkpoint.antt =====
-- src/domain/ingestion/checkpoints.py and src/infrastructure/ingestion/checkpoint_repository.py: the
-- progress of an ingestion stream, and the atomic claim and transitions of its source units.
pub mod Types
pub mod Timeline
pub mod Collection
pub mod ClaimQuery
pub mod Claim
pub mod Updates
pub mod Transitions
pub mod ReviewUpdates
pub mod Review
pub mod Fencing
pub mod Attempt
pub mod Eligible
pub mod Exclusion
pub mod Lifecycle
pub mod Operations
pub mod Units
