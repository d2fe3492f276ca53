-- ===== src/Reconciler.antt =====
-- app/ledger/reconciler.py: one pass for one user, from ingest to the drained outbox.
pub mod Pause
pub mod Affected
pub mod DryRun
pub mod Reconcile
pub mod Undoable
pub mod Staging
pub mod Staged
pub mod Discard
pub mod Restore
pub mod DryDiff
pub mod DryPass
pub mod Frozen
pub mod Queue
pub mod Audit
