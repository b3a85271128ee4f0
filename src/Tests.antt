-- ===== src/Tests.antt =====
-- Concrete runs of the models, and the theorems at concrete inputs.
mod Samples
mod Frontend
mod Parsing
mod Spelling
mod Streams
mod Scanner
mod Bytecode
mod Format
mod Lexing
mod Linking
mod Vm
