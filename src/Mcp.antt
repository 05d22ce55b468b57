-- ===== src/Mcp.antt =====
-- The tools that the MCP server offers (src/mcp).
pub mod Gate
mod Tests
