-- ===== src/Vm/Call.antt =====
-- `Virtual_machine::call` (code/vm/src/vm.cpp): a call from C++ by name, with typed arguments.
use basedlang.Prelude.{
  ℕ, suc, ◌+◌, ◌-◌, Bool, not, Option, some, none, List, [], ◌∷◌, length, get_elem?, drop, ltb,
  ◌==◌, if◌then◌else◌,
}
use Prim.Native.Nat.{max}
use basedlang.Bytecode.Module.{
  ScalarType, int8, int16, int32, int64, float_, double_, bool_, void_, FunctionEntry,
}
use basedlang.Vm.Scalar.{Scalar, type_of, from_bits}
use basedlang.Vm.Machine.{
  Vm, in_code, on_exit_byte, ok, throw, undefined, out_of_fuel, unknown_function, argument_count,
  argument_type, unsupported_argument_type, M, ◌>>=◌, ◌>>◌, return, fail, defined, read_absolute,
  set_register_value, grow_registers,
}
use basedlang.Vm.Arithmetic.{Floats}
use basedlang.Vm.Dispatch.{run}

abbrev pub type_index : ScalarType → ℕ
type_index int8 = 0
type_index int16 = 1
type_index int32 = 2
type_index int64 = 3
type_index float_ = 4
type_index double_ = 5
type_index bool_ = 6
type_index void_ = 7

abbrev pub type_eq : ScalarType → ScalarType → Bool
type_eq a b = type_index a == type_index b

-- `module->function_indices.find(name)`
unfoldable pub find_function : ℕ → List (ℕ × ℕ) → Option ℕ
find_function name [] = none
find_function name ((n, f) ∷ entries) = if n == name then some f else find_function name entries

-- The loop over the arguments: the first whose type is not the parameter's.
unfoldable pub find_mismatch : ℕ → List Scalar → List ScalarType → Option (ℕ × ScalarType)
unfolding type_of
find_mismatch i (a ∷ args) (t ∷ ts) =
    let rest = find_mismatch (suc i) args ts in if type_eq (type_of a) t then rest else some (i, t)
find_mismatch i _ _ = none

-- The second loop: the arguments go to the first registers of the window.
unfoldable pub set_arguments : ℕ → List Scalar → M (Unit {0})
set_arguments i [] = return tt
set_arguments i (Scalar.void_ ∷ args) = fail (unsupported_argument_type i void_)
set_arguments i (a ∷ args) = do set_register_value i a; set_arguments (suc i) args

-- The destructor of `State_guard`. The call stack is never shorter than it was, since the frame that
-- `call` pushes returns to the exit byte, where `run` ends.
abbrev pub restored : Vm → Vm → Vm
restored old vm = record vm {
  call_stack = drop (length (vm.call_stack) - length (old.call_stack)) (vm.call_stack);
  instruction_pointer = old.instruction_pointer;
  base_register = old.base_register;
  stack_pointer = old.stack_pointer;
}

-- The guard runs when the body returns and when it throws.
unfoldable pub guarded : {A : Type 0} → M A → M A
guarded m vm = elim (m vm) [
  | ok a vm' ↦ ok a (restored vm vm')
  | throw e vm' ↦ throw e (restored vm vm')
  | undefined ↦ undefined
  | out_of_fuel ↦ out_of_fuel
]

-- `base_register = 0` and the register window.
abbrev pub open_window : ℕ → M (Unit {0})
open_window size vm = ok tt (record vm {
  base_register = 0;
  registers =
      if ltb (length (vm.registers)) size then grow_registers size (vm.registers) else vm.registers;
})

-- The return slot, past all registers.
abbrev pub add_return_register : ScalarType → M (Option ℕ)
add_return_register t vm =
    if type_eq t void_
    then ok none vm
    else ok (some (length (vm.registers)))
        (record vm { registers = grow_registers (length (vm.registers) + 1) (vm.registers) })

-- The frame that returns to the exit byte, and the jump to the function.
abbrev pub enter : Vm → Option ℕ → ℕ → M (Unit {0})
enter old return_register position vm = ok tt (record vm {
  call_stack =
      record {
        return_address = on_exit_byte;
        base_register = old.base_register;
        stack_pointer = old.stack_pointer;
        return_register = return_register;
      }
      ∷ vm.call_stack;
  instruction_pointer = in_code position;
})

-- `decode_return`, and the void value.
abbrev pub decode_return : ScalarType → Option ℕ → M Scalar
decode_return t none = if type_eq t void_ then return Scalar.void_ else (λ vm. undefined)
decode_return t (some r) = do v ← read_absolute r; return (from_bits t v)

module _ (floats : Floats) (fuel : ℕ) where
  -- `call`, once the function is found and the arguments are checked.
  unfoldable pub call_body : Vm → FunctionEntry → List Scalar → M Scalar
  unfolding set_arguments grow_registers run
  call_body old fn args = do
    open_window (max (length args) (fn.register_count))
    set_arguments 0 args
    return_register ← add_return_register (fn.return_type)
    position ← defined (fn.position)
    enter old return_register position
    run floats fuel
    decode_return (fn.return_type) return_register

  unfoldable pub call_function : FunctionEntry → List Scalar → M Scalar
  unfolding find_mismatch guarded call_body
  call_function fn args vm =
      if not (length args == length (fn.parameter_types))
      then throw (argument_count (length (fn.parameter_types)) (length args)) vm
      else elim (find_mismatch 0 args (fn.parameter_types)) [
        | some (i, t) ↦ throw (argument_type i t) vm
        | none ↦ guarded (call_body vm fn args) vm
      ]

  unfoldable pub call : ℕ → List Scalar → M Scalar
  unfolding find_function call_function
  call name args vm = elim (find_function name (vm.program.function_indices)) [
    | none ↦ throw (unknown_function name) vm
    | some f ↦ elim (get_elem? (vm.program.functions) f) [
      | none ↦ undefined
      | some fn ↦ call_function fn args vm
    ]
  ]
