-- ===== src/Spelling.antt =====
-- `Spelling_table` (code/spelling/include/spelling/spelling.h): texts interned under handles.
pub mod Buckets
pub mod Probing
pub mod Placing
pub mod Placed
pub mod Table
pub mod Views
pub mod Refill
pub mod Valid
pub mod Interning
pub mod Lookups
pub mod Building
