-- ===== src/Streams.antt =====
-- code/streams: the UTF-8 decoder, the peeker, and the one on top of the other.
pub mod Utf8
pub mod Peeker
pub mod Source
pub mod Buffered
