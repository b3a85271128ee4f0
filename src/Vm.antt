-- ===== src/Vm.antt =====
-- code/vm: the virtual machine that runs the bytecode.
pub mod Scalar
pub mod Pointer
pub mod Machine
pub mod Registers
pub mod Values
pub mod Arithmetic
pub mod Run
pub mod Handler
pub mod Dispatch
pub mod Call
pub mod Calls
