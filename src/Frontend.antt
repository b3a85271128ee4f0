-- ===== src/Frontend.antt =====
-- Parts of the compiler (code/frontend).
pub mod SymbolTable
pub mod Scoping
