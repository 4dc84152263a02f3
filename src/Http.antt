-- ===== src/Http.antt =====
-- asciinema/urllib_http_adapter.py: the body and the headers of a request.
pub mod Multipart
pub mod Split
pub mod ReadBack
pub mod Request
mod Tests
