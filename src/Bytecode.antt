-- ===== src/Bytecode.antt =====
-- code/bytecode: opcodes, the writer that encodes instructions, and the module builder.
pub mod Opcode
pub mod Module
pub mod Writer
pub mod Emitter
pub mod Instruction
pub mod Builder
pub mod Constants
pub mod Build
pub mod Relocation
pub mod Building
