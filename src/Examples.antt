-- ===== src/Examples.antt =====
-- The theorems at concrete rows, one module for each part.
mod Data
mod Planner
mod Payload
mod Identity
mod Maintenance
mod Reconciler
mod Diff
mod Outbox
mod Triggers
mod Ingest
