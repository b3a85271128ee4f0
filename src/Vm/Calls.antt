-- ===== src/Vm/Calls.antt =====
-- Calls and returns of the machine (code/vm/src/vm.cpp): `run_call_i` against `run_ret`, and what
-- `Virtual_machine::call` leaves behind.
use basedlang.Prelude.{
  ℕ, ◌+◌, ◌<◌, ◌≡◌, refl, ◌∙◌, Bool, true, false, Option, some, none, List, ◌∷◌, length, get_elem?,
  set, arith, lt→ltb, not, ◌==◌,
}
use basedlang.Bytecode.Module.{ScalarType, FunctionEntry}
use basedlang.Vm.Scalar.{Scalar}
use basedlang.Vm.Machine.{
  Vm, CallFrame, Outcome, ok, throw, undefined, out_of_fuel, M, >>=-ok, read_register,
  write_absolute,
}
use basedlang.Vm.Arithmetic.{Floats}
use basedlang.Vm.Run.{call_i, call_i_returning, ret, ret_void, pop_frame, return_to}
use basedlang.Vm.Registers.{read_register_lem}
use basedlang.Vm.Call.{guarded, call_body, call_function, call, find_function, find_mismatch}

-- The caller's frame, as `run_call_i` pushes it.
abbrev pub frame_of : Vm → Option ℕ → CallFrame
frame_of vm dst = record {
  return_address = vm.instruction_pointer;
  base_register = vm.base_register;
  stack_pointer = vm.stack_pointer;
  return_register = dst;
}

-- The machine at the caller again, with these registers.
abbrev pub returned : Vm → Vm → List ℕ → Vm
returned vm vm' registers = record vm' {
  instruction_pointer = vm.instruction_pointer;
  registers = registers;
  stack_pointer = vm.stack_pointer;
  base_register = vm.base_register;
  call_stack = vm.call_stack;
}

module _ (vm vm₁ vm₂ : Vm) (function base : ℕ) where
  ok-injective : {a b : Vm} → ok tt a ≡ ok tt b → a ≡ b
  ok-injective e = cc

  call_i-call_stack :
      (dst : Option ℕ)
      → call_i function base dst vm ≡ ok tt vm₁
      → vm₁.call_stack ≡ frame_of vm dst ∷ vm.call_stack
  unfolding call_i
  call_i-call_stack dst h = ground arith

  pop_frame-cons :
      (frame : CallFrame) (rest : List CallFrame)
      → vm₂.call_stack ≡ frame ∷ rest
      → pop_frame vm₂ ≡ ok frame (record vm₂ { call_stack = rest })
  pop_frame-cons frame rest e = rw (e, pop_frame)

  -- A call without a result, and a return from a state of the callee whose call stack is as the call
  -- left it: the caller's instruction pointer, register window, stack pointer and call stack are back.
  pub call_i-ret_void :
      call_i function base none vm ≡ ok tt vm₁
      → vm₂.call_stack ≡ vm₁.call_stack
      → ret_void vm₂ ≡ ok tt (returned vm vm₂ (vm₂.registers))
  unfolding ret_void
  call_i-ret_void h k =
      >>=-ok pop_frame _ vm₂ (record vm₂ { call_stack = vm.call_stack }) (frame_of vm none)
        (pop_frame-cons (frame_of vm none) (vm.call_stack) (k ∙ call_i-call_stack none h))

  -- A call with a result, and a return of a value from a state of the callee whose call stack is as the
  -- call left it: the caller's instruction pointer, register window, stack pointer and call stack are
  -- back, the caller's destination register has the value, and no other register has changed.
  pub call_i_returning-ret :
      (dst src value : ℕ)
      → call_i_returning function base dst vm ≡ ok tt vm₁
      → vm₂.call_stack ≡ vm₁.call_stack
      → get_elem? (vm₂.registers) (vm₂.base_register + src) ≡ some value
      → vm.base_register + dst < length (vm₂.registers)
      → ret src vm₂ ≡ ok tt (returned vm vm₂ (set (vm₂.registers) (vm.base_register + dst) value))
  unfolding ret call_i_returning write_absolute
  call_i_returning-ret dst src value h k held small =
      let frame = frame_of vm (some (vm.base_register + dst)) in
      let popped = record vm₂ { call_stack = vm.call_stack } in
      let back = record popped {
        base_register = vm.base_register;
        stack_pointer = vm.stack_pointer;
      } in
      >>=-ok pop_frame _ vm₂ popped frame (
        pop_frame-cons frame (vm.call_stack)
          (k ∙ call_i-call_stack (some (vm.base_register + dst)) h))
      ∙ >>=-ok (read_register src) _ popped popped value (read_register_lem popped src value held)
      ∙ >>=-ok (write_absolute (vm.base_register + dst) value) (λ _. return_to frame) back
          (record back { registers = set (vm₂.registers) (vm.base_register + dst) value }) tt
          (rw (lt→ltb (vm.base_register + dst) (length (vm₂.registers)) small) refl)

-- Where the outcome is a value or an exception, the machine has its instruction pointer, register
-- window and stack pointer back.
abbrev pub Restored : {A : Type 0} → Vm → Outcome A → Type 0
Restored vm (ok a vm') =
    (vm'.instruction_pointer ≡ vm.instruction_pointer)
    × (vm'.base_register ≡ vm.base_register)
    × (vm'.stack_pointer ≡ vm.stack_pointer)
Restored vm (throw e vm') =
    (vm'.instruction_pointer ≡ vm.instruction_pointer)
    × (vm'.base_register ≡ vm.base_register)
    × (vm'.stack_pointer ≡ vm.stack_pointer)
Restored vm undefined = Unit
Restored vm out_of_fuel = Unit

guarded-Restored : {A : Type 0} (m : M A) (vm : Vm) → Restored vm (guarded m vm)
unfolding guarded
guarded-Restored m vm = go (m vm) refl
  where
    go : (o : Outcome _) → m vm ≡ o → Restored vm (guarded m vm)
    go (ok a vm') e = rw (e, guarded) (refl, refl, refl)
    go (throw x vm') e = rw (e, guarded) (refl, refl, refl)
    go undefined e = rw (e, guarded) tt
    go out_of_fuel e = rw (e, guarded) tt

module _ (floats : Floats) (fuel : ℕ) (args : List Scalar) (vm : Vm) where
  call_function-Restored : (fn : FunctionEntry) → Restored vm (call_function floats fuel fn args vm)
  unfolding call_function
  call_function-Restored fn = counted (not (length args == length (fn.parameter_types))) refl
    where
      matched :
          (o : Option (ℕ × ScalarType))
          → find_mismatch 0 args (fn.parameter_types) ≡ o
          → not (length args == length (fn.parameter_types)) ≡ false
          → Restored vm (call_function floats fuel fn args vm)
      matched (some (i, t)) e c = rw (c, e, call_function) (refl, refl, refl)
      matched none e c =
          rw (c, e, call_function) (guarded-Restored (call_body floats fuel vm fn args) vm)

      counted :
          (b : Bool)
          → not (length args == length (fn.parameter_types)) ≡ b
          → Restored vm (call_function floats fuel fn args vm)
      counted true c = rw (c, call_function) (refl, refl, refl)
      counted false c = matched (find_mismatch 0 args (fn.parameter_types)) refl c

  -- A call by name, whatever the called code does: if it returns a value or throws, on any of its
  -- checks or anywhere in the called code, the machine's instruction pointer, register window and
  -- stack pointer are those from before the call.
  pub call-Restored : (name : ℕ) → Restored vm (call floats fuel name args vm)
  unfolding call
  call-Restored name = found (find_function name (vm.program.function_indices)) refl
    where
      entry :
          (f : ℕ) (o : Option FunctionEntry)
          → get_elem? (vm.program.functions) f ≡ o
          → find_function name (vm.program.function_indices) ≡ some f
          → Restored vm (call floats fuel name args vm)
      entry f none e g = rw (g, e, call) tt
      entry f (some fn) e g = rw (g, e, call) (call_function-Restored fn)

      found :
          (o : Option ℕ)
          → find_function name (vm.program.function_indices) ≡ o
          → Restored vm (call floats fuel name args vm)
      found none g = rw (g, call) (refl, refl, refl)
      found (some f) g = entry f (get_elem? (vm.program.functions) f) refl g
