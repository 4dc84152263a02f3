-- ===== src/Commands.antt =====
-- The commands, asciinema/commands/*.py.
pub mod Record
pub mod Kept
pub mod Saved
pub mod Whitelist
pub mod Init
pub mod Env
pub mod Recording
pub mod Questions
pub mod Cat
pub mod Play
pub mod Upload
mod Tests
