-- ===== src/Examples.antt =====
-- Runs of the code on concrete inputs.
mod Rows
mod Store
mod Claims
mod Units
mod Documents
mod Records
mod Quarantined
mod Resolutions
mod Validated
mod Scopes
mod Shelf
mod Deliveries
