-- ===== src/Tests.antt =====
-- Runs of the model at concrete inputs, and the theorems at such inputs.
mod Search
mod Store
mod Decay
mod Observations
mod Hybrid
mod Runs
mod Embed
mod Server
mod Requests
mod Config
mod Import
mod Admin
mod Bench
mod Migrations
mod Command
