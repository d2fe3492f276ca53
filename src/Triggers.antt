-- ===== src/Triggers.antt =====
-- app/ledger/triggers.py: the reconcile requests, one row per user.
pub mod Requests
pub mod Lifecycle
pub mod Recorded
