-- ===== src/Tests/Vm.antt =====
-- Registers, pointers and calls at concrete machines.
use basedlang.Prelude.{◌≡◌, refl, some, none, [], ◌∷◌, arith}
use basedlang.Prelude.Int.{pos, negsuc}
use basedlang.Bytecode.Module.{int32}
use basedlang.Vm.Machine.{
  Vm, in_code, throw, argument_type, Outcome, ◌>>◌, get_register_value, set_register_value,
  grow_registers,
}
use basedlang.Vm.Pointer.{
  AddressSpace, make_pointer, decode_space, decode_offset, decode-make_pointer,
}
use basedlang.Vm.Scalar.{Scalar, type_of, to_bits}
use basedlang.Vm.Values.{set-get_register_value}
use basedlang.Vm.Run.{call_i, call_i_returning, ret, ret_void}
use basedlang.Vm.Call.{call, call_function, find_function, find_mismatch}
use basedlang.Vm.Calls.{
  frame_of, returned, call_i-ret_void, call_i_returning-ret, Restored, call-Restored,
}
use basedlang.Tests.Samples.{floats, machine, callable}

set-get_register_value_example :
    (set_register_value 2 (Scalar.int32 (negsuc 4)) >> get_register_value int32 2) (machine [])
    ≡ Outcome.ok
        (Scalar.int32 (negsuc 4))
        (record (machine []) { registers = 9 ∷ 0 ∷ 20 ∷ 18446744073709551611 ∷ 4 ∷ [] })
unfolding type_of to_bits
set-get_register_value_example =
    set-get_register_value (machine []) 2 (Scalar.int32 (negsuc 4)) refl (omega arith)

decode-make_pointer_example :
    (decode_space (make_pointer AddressSpace.stack 100) ≡ some AddressSpace.stack)
    × (decode_offset (make_pointer AddressSpace.stack 100) ≡ 100)
decode-make_pointer_example = decode-make_pointer AddressSpace.stack 100 (omega arith)

-- The callee's window begins at the caller's register 2.
abbrev called : Vm
called = record callable {
  instruction_pointer = in_code 3;
  registers = 9 ∷ 0 ∷ 20 ∷ 22 ∷ 4 ∷ 0 ∷ 0 ∷ [];
  base_register = 3;
  call_stack = frame_of callable (some 2) ∷ [];
}

abbrev called_void : Vm
called_void = record called { call_stack = frame_of callable none ∷ [] }

call_lem : call_i_returning 0 2 1 callable ≡ Outcome.ok tt called
unfolding call_i_returning call_i grow_registers
call_lem = refl

call_void_lem : call_i 0 2 none callable ≡ Outcome.ok tt called_void
unfolding call_i grow_registers
call_void_lem = refl

call_i_returning-ret_example :
    ret 0 called ≡ Outcome.ok tt (returned callable called (9 ∷ 0 ∷ 22 ∷ 22 ∷ 4 ∷ 0 ∷ 0 ∷ []))
call_i_returning-ret_example =
    call_i_returning-ret callable called called 0 2 1 0 22 call_lem refl refl (omega arith)

call_i-ret_void_example :
    ret_void called_void ≡ Outcome.ok tt (returned callable called_void (called_void.registers))
call_i-ret_void_example = call_i-ret_void callable called_void called_void 0 2 call_void_lem refl

call-mismatch :
    call floats 5 70 (Scalar.int64 (pos 1) ∷ []) callable ≡ throw (argument_type 0 int32) callable
unfolding call call_function find_function find_mismatch type_of
call-mismatch = refl

call-Restored_example : Restored callable (call floats 5 70 (Scalar.int64 (pos 1) ∷ []) callable)
call-Restored_example = call-Restored floats 5 (Scalar.int64 (pos 1) ∷ []) callable 70
