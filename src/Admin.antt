-- ===== src/Admin.antt =====
-- internal/admin: the commands.
pub mod Flags
pub mod Options
pub mod Transcript
pub mod Import
pub mod Embed
pub mod Commands
pub mod Doctor
pub mod Measuring
