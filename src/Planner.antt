-- ===== src/Planner.antt =====
-- app/ledger/planner.py: from a ledger row to the desired projections on each target calendar.
pub mod Row
pub mod Desired
pub mod Targets
pub mod Privacy
pub mod Fanout
pub mod Persist
pub mod Plan
pub mod Keeps
pub mod Upsert
pub mod Keyed
pub mod Replan
pub mod Cascade
