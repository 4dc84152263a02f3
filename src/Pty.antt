-- ===== src/Pty.antt =====
-- asciinema/pty_.py, `record`: the session with the child's terminal.
-- `Defs` has the state and the handlers, `Copy` the loop over `select`.
pub mod Defs
pub mod Copy
pub mod Rising
pub mod Timing
pub mod Taken
pub mod Input
pub mod Notices
pub mod Paused
pub mod Output
pub mod Faults
mod Tests
