-- ===== src/Embed.antt =====
-- internal/embed/ollama.go: the client of the embedding server, and the circuit breaker.
pub mod Client
pub mod Breaker
