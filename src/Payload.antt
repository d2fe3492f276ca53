-- ===== src/Payload.antt =====
-- app/ledger/payload.py: from a ledger row to the body that is sent to Google.
pub mod Blocks
pub mod Guests
pub mod FullCopy
pub mod Writeback
pub mod Render
pub mod Strip
pub mod Privacy
pub mod Columns
pub mod TwoViews
pub mod Answers
pub mod RoundTrip
pub mod Prefixes
