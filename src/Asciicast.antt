-- ===== src/Asciicast.antt =====
-- The package asciinema/asciicast: frames and their times, readers and writers of recordings.
pub mod Events
pub mod Json
pub mod V2
pub mod Raw
pub mod V1
pub mod Opening
pub mod Url
pub mod Loading
pub mod Frames
mod Tests
