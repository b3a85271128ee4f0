-- ===== src/Parsing.antt =====
-- The parser (code/parsing).
pub mod Result
pub mod Parser
pub mod Grammar
pub mod Expects
pub mod Steps
pub mod Onto
pub mod Longer
pub mod Heads
pub mod Rounds
pub mod Spines
pub mod Kinds
pub mod Parts
pub mod Blocks
pub mod Primary
pub mod Operands
pub mod Complete
pub mod Sound
pub mod Unit
pub mod Exact
