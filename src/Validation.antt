-- ===== src/Validation.antt =====
-- The validation of canonical transactions: src/validators/validator.py.
pub mod Rules
pub mod Verdict
