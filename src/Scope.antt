-- ===== src/Scope.antt =====
-- The scope of a delivery by its business keys: src/reconciliation/scope.py.
pub mod Keys
pub mod Choice
pub mod Files
pub mod Counts
