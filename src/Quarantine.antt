-- ===== src/Quarantine.antt =====
-- The quarantine of rejected rows: src/domain/ingestion/quarantine.py, its repository and its service.
pub mod Texts
pub mod Values
pub mod Types
pub mod Issues
pub mod Categories
pub mod Collection
pub mod Updates
pub mod Escalation
pub mod Repository
pub mod Lifecycle
pub mod History
pub mod Invariant
pub mod Course
pub mod Operations
pub mod Actions
pub mod Once
pub mod Lost
pub mod Settling
pub mod Leftover
pub mod Queries
pub mod Summaries
pub mod Counts
pub mod Totals
pub mod Blocking
pub mod Purging
pub mod Secrets
pub mod Redaction
