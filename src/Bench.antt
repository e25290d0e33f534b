-- ===== src/Bench.antt =====
-- internal/bench: the measuring of the search and of the server.
pub mod Metrics
pub mod Adapter
pub mod Runner
pub mod Requests
pub mod Samples
pub mod Summary
pub mod Perf
pub mod Scorecard
