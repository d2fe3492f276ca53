-- ===== src/Identity.antt =====
-- app/ledger/identity.py: the ids of events, in Google Calendar and in the ledger.
pub mod EventId
pub mod Canonical
pub mod Encoding
