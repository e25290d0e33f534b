-- ===== src/Server.antt =====
-- internal/server/server.go: the HTTP server.
pub mod Compaction
pub mod Recorder
pub mod Context
pub mod Http
