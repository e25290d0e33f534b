-- ===== src/Search.antt =====
-- The package internal/search: fusion of two rankings and the hybrid search over the store.
pub mod Rrf
pub mod Vectors
pub mod Hybrid
