-- ===== src/Lexing.antt =====
-- code/lexing: the ring buffer, and the reader with its lookahead.
pub mod Token
pub mod Scanner
pub mod RingBuffer
pub mod Queue
pub mod Reader
pub mod Lookahead
pub mod LexErrors
