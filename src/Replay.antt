-- ===== src/Replay.antt =====
-- A recording and its replay: what asciinema/recorder.py writes, read back by asciinema/asciicast and
-- shown by asciinema/commands/cat.py and asciinema/player.py.
pub mod Frames
pub mod Cat
pub mod Retimed
pub mod Command
pub mod CommandPlay
pub mod Play
