-- ===== src/Mcp.antt =====
-- The request decoding and transport metadata of backend/internal/mcp.
pub mod Headers
pub mod Json
pub mod Tests
