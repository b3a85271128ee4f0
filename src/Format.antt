-- ===== src/Format.antt =====
-- The instruction format that the writer (code/bytecode) and the machine (code/vm) share, described
-- apart from both: a narrow or a wide form of the opcode, then its operands, low byte first.
pub mod Defs
pub mod Code
pub mod Emits
pub mod Decodes
pub mod Instructions
pub mod Shapes
pub mod Steps
pub mod RoundTrip
pub mod Jumps
pub mod JumpTargets
