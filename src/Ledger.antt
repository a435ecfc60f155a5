-- ===== src/Ledger.antt =====
-- The tamper-evident ledger, backend/internal/ledger.
pub mod Timestamp
pub mod Entry
pub mod Encoding
pub mod Verify
pub mod Chain
pub mod Anchoring
pub mod Append
pub mod Page
pub mod Handler
pub mod Routes
mod Tests
