-- ===== src/Linking.antt =====
-- From a module builder to a running machine: code/bytecode/src/module_builder.cpp against
-- code/vm/src/vm.cpp.
pub mod Growth
pub mod Operations
pub mod Labels
pub mod Valid
pub mod Patches
pub mod ForwardJumps
pub mod Pool
pub mod Kept
pub mod ConstantValues
