-- ===== src/Store/Reports.antt =====
-- The read-only reports of internal/store: the queries of phase2_helpers.go (Timeline, Files, Patterns)
-- and the profiles of mcp_helpers.go (Profiles).
pub mod Timeline
pub mod Files
pub mod Patterns
pub mod Profiles
