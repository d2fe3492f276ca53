-- ===== src/Outbox.antt =====
-- app/ledger/outbox.py: the write queue to Google, and its drain with idempotent retry.
pub mod Enqueue
pub mod Queue
pub mod Claim
pub mod Claims
pub mod Record
pub mod Retry
pub mod Create
pub mod Update
pub mod Remove
pub mod Drain
pub mod Outcomes
pub mod Handlers
pub mod Execute
pub mod Policy
pub mod ReadOnly
pub mod Generations
pub mod Ceiling
