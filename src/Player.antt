-- ===== src/Player.antt =====
-- asciinema/player.py: the playback of a recording. `Defs` has the outputs and the state of `_play`,
-- `Loops` its loops.
pub mod Defs
pub mod Loops
pub mod Shows
pub mod Finish
pub mod Pause
mod Tests
