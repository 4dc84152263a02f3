-- ===== src/Asciicast/V2.antt =====
-- asciinema/asciicast/v2.py: reading and writing recordings in the asciicast v2 format.
pub mod Writer
pub mod Reader
