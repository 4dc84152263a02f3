-- ===== src/Recorder.antt =====
-- asciinema/recorder.py and asciinema/async_worker.py.
pub mod Worker
pub mod Lines
pub mod Works
pub mod Output
pub mod Duration
pub mod Headless
pub mod Chunks
pub mod Whole
pub mod Times
pub mod Sorted
pub mod Appended
pub mod Processes
pub mod Metadata
pub mod Call
pub mod RawAppended
pub mod Notifier
pub mod Notices
mod Tests
