-- ===== src/Ingest.antt =====
-- The ingest of Google calendars into the ledger: its modules.
pub mod Fields
pub mod Conference
pub mod Instant
pub mod Rows
pub mod Instance
pub mod Client
pub mod Personal
pub mod Evolution
pub mod Growth
pub mod OneEvent
pub mod Gather
pub mod Pass
pub mod PassSteps
pub mod PassRows
pub mod Stamps
pub mod Quiet
pub mod Settling
pub mod OwnCopies
pub mod Scans
pub mod Restored
pub mod MainEdits
pub mod EditBack
pub mod Main
pub mod MainPass
pub mod MatchedCopy
pub mod SourceSafety
pub mod Arming
