-- ===== src/Quarantine.antt =====
-- Held actions: backend/internal/quarantine over the statements of
-- backend/internal/db/quarantine.sql.go.
pub mod Table
pub mod Store
pub mod Machine
pub mod Updates
pub mod World
pub mod Worker
pub mod Drain
pub mod Handler
mod Tests
