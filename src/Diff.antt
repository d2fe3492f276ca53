-- ===== src/Diff.antt =====
-- app/ledger/diff.py: from diverged projections to outbox operations.
pub mod Select
pub mod LedgerDict
pub mod Decide
pub mod Pass
pub mod Safety
pub mod Convergence
pub mod Bounds
