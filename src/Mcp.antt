-- ===== src/Mcp.antt =====
-- internal/mcp/server.go: the MCP server, its tools, resources and prompts.
pub mod Arguments
pub mod Dtos
pub mod Listing
pub mod Search
pub mod Tools
pub mod Reading
pub mod Resources
pub mod Rpc
