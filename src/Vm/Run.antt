-- ===== src/Vm/Run.antt =====
-- The operand decoders and the `run_` templates of code/vm/src/vm.cpp.
use basedlang.Prelude.{
  ℕ, ◌+◌, ◌*◌, ◌/◌, ◌^◌, Option, some, none, [], ◌∷◌, length, ltb, ◌==◌, if◌then◌else◌, get_elem?,
}
use basedlang.Prelude.Int.{ℤ, pos, ◌+ℤ◌, ◌-ℤ◌}
use basedlang.Words.{wrap, signed, in_range}
use basedlang.Bytecode.Module.{ScalarType, int32, int64}
use basedlang.Vm.Scalar.{Scalar}
use basedlang.Vm.Pointer.{AddressSpace, make_pointer, decode_space, decode_offset}
use basedlang.Vm.Machine.{
  in_code, CallFrame, ok, undefined, unsupported_load, store_to_constant, unsupported_store, M,
  ◌>>=◌, ◌>>◌, return, fail, defined, get_vm, next_byte, jump_by, write_absolute, read_register,
  write_register, get_register_value, set_register_value, read_le, write_le, stack_size, stack_byte,
  address_of, grow_registers, get_constant_value,
}
use basedlang.Vm.Arithmetic.{UnaryFn, BinaryFn, Floats, is_zero, apply_unary, apply_binary}

-- `enum class Operand_width`
pub data OperandWidth : Type 0 where
  narrow wide : OperandWidth

-- `decode_register`, `decode_constant` and `decode_function`: an unsigned operand.
unfoldable pub decode_register : OperandWidth → M ℕ
unfolding next_byte
decode_register wide = do b₀ ← next_byte; b₁ ← next_byte; return (b₀ + 256 * b₁)
decode_register narrow = next_byte

-- `decode_immediate`: a signed operand.
unfoldable pub decode_immediate : OperandWidth → M ℤ
unfolding next_byte
decode_immediate wide = do b₀ ← next_byte; b₁ ← next_byte; return (signed 32768 (b₀ + 256 * b₁))
decode_immediate narrow = do b ← next_byte; return (signed 128 b)

-- What the templates do with their operands once these are decoded.
unfoldable pub lookup_k : ℕ → ℕ → M (Unit {0})
unfolding make_pointer
lookup_k k dst = do
  vm ← get_vm
  offset ← defined (get_elem? (vm.program.constant_table) k)
  write_register dst (make_pointer AddressSpace.constant offset)

unfoldable pub mov : ℕ → ℕ → M (Unit {0})
mov src dst = do v ← read_register src; write_register dst v

unfoldable pub mov_i : ℤ → ℕ → M (Unit {0})
mov_i src dst = set_register_value dst (Scalar.int16 src)

-- `static_cast<OperandType>(rhs.value)`; the source has immediates at the two integer types only.
abbrev pub immediate_operand : ScalarType → ℤ → Option Scalar
immediate_operand int32 z = some (Scalar.int32 z)
immediate_operand int64 z = some (Scalar.int64 z)
immediate_operand _ z = none

-- The `memcpy` of `N` bytes into a register: a short value is sign-extended.
abbrev pub extend : ℕ → ℕ → ℕ
extend n v = if n == 8 then v else wrap (2 ^ 64) (signed (256 ^ n / 2) v)

unfoldable pub load : ℕ → ℕ → ℤ → ℕ → M (Unit {0})
unfolding decode_space decode_offset read_le stack_byte ◌+ℤ◌
load n base offset dst = do
  pointer ← read_register base
  vm ← get_vm
  let address = pos (decode_offset pointer) +ℤ offset
  v ← elim (decode_space pointer) [
    | some AddressSpace.constant ↦ do
      a ← defined (address_of address)
      defined (read_le (get_elem? (vm.program.constant_data)) n a)
    | some AddressSpace.stack ↦ do
      a ← defined (address_of address)
      defined (read_le (stack_byte (vm.stack)) n a)
    | some AddressSpace.heap ↦ fail unsupported_load
    | none ↦ fail unsupported_load
  ]
  write_register dst (extend n v)

-- `memcpy` of `n` bytes to the stack memory
unfoldable pub store_bytes : ℕ → ℤ → ℕ → M (Unit {0})
unfolding write_le
store_bytes n address v vm = elim (address_of address) [
  | some a ↦
      if ltb stack_size (a + n)
      then undefined
      else ok tt (record vm { stack = write_le (vm.stack) n a v })
  | none ↦ undefined
]

unfoldable pub store : ℕ → ℕ → ℤ → ℕ → M (Unit {0})
unfolding decode_space decode_offset store_bytes ◌+ℤ◌
store n base offset src = do
  pointer ← read_register base
  elim (decode_space pointer) [
    | some AddressSpace.constant ↦ fail store_to_constant
    | some AddressSpace.stack ↦ do
      v ← read_register src
      store_bytes n (pos (decode_offset pointer) +ℤ offset) v
    | some AddressSpace.heap ↦ fail unsupported_store
    | none ↦ fail unsupported_store
  ]

unfoldable pub load_sp : ℕ → ℤ → ℕ → M (Unit {0})
unfolding read_le stack_byte ◌+ℤ◌
load_sp n offset dst = do
  vm ← get_vm
  a ← defined (address_of (vm.stack_pointer +ℤ offset))
  v ← defined (read_le (stack_byte (vm.stack)) n a)
  write_register dst (extend n v)

unfoldable pub store_sp : ℕ → ℤ → ℕ → M (Unit {0})
unfolding store_bytes ◌+ℤ◌
store_sp n offset src = do
  vm ← get_vm
  v ← read_register src
  store_bytes n (vm.stack_pointer +ℤ offset) v

unfoldable pub jnz_i : ℕ → ℤ → M (Unit {0})
unfolding jump_by
jnz_i src offset = do
  v ← get_register_value int32 src
  elim v [ Scalar.int32 z ↦ if is_zero z then return tt else jump_by offset | _ ↦ return tt ]

-- The frame is pushed, the callee's register window opened, and control passed to its code. The
-- return register is absolute.
unfoldable pub call_i : ℕ → ℕ → Option ℕ → M (Unit {0})
unfolding grow_registers
call_i function base dst vm = elim (get_elem? (vm.program.functions) function) [
  | none ↦ undefined
  | some f ↦ elim (f.position) [
    | none ↦ undefined
    | some position ↦
        let new_base = vm.base_register + base in
        let required = new_base + f.register_count in
        ok tt (record vm {
          call_stack =
              record {
                return_address = vm.instruction_pointer;
                base_register = vm.base_register;
                stack_pointer = vm.stack_pointer;
                return_register = dst;
              }
              ∷ vm.call_stack;
          base_register = new_base;
          registers =
              if ltb (length (vm.registers)) required
              then grow_registers required (vm.registers)
              else vm.registers;
          instruction_pointer = in_code position;
        })
  ]
]

-- A call with a result: the caller's register `dst`, as an absolute index.
unfoldable pub call_i_returning : ℕ → ℕ → ℕ → M (Unit {0})
unfolding call_i
call_i_returning function base dst = do
  vm ← get_vm
  call_i function base (some (vm.base_register + dst))

-- `vm.call_stack.back()` and `pop_back()`
abbrev pub pop_frame : M CallFrame
pop_frame vm = elim (vm.call_stack) [
  | [] ↦ undefined
  | frame ∷ rest ↦ ok frame (record vm { call_stack = rest })
]

-- The caller's registers and stack pointer.
abbrev pub restore : CallFrame → M (Unit {0})
restore frame vm =
    ok tt (record vm { base_register = frame.base_register; stack_pointer = frame.stack_pointer })

abbrev pub return_to : CallFrame → M (Unit {0})
return_to frame vm = ok tt (record vm { instruction_pointer = frame.return_address })

unfoldable pub ret : ℕ → M (Unit {0})
ret src = do
  frame ← pop_frame
  return_register ← defined (frame.return_register)
  value ← read_register src
  restore frame
  write_absolute return_register value
  return_to frame

unfoldable pub ret_void : M (Unit {0})
ret_void = do frame ← pop_frame; restore frame; return_to frame

-- A sum in `std::ptrdiff_t`, whose overflow is undefined.
abbrev pub in_ptrdiff : ℤ → Option ℤ
in_ptrdiff z = if in_range (2 ^ 63) z then some z else none

-- `stack_pointer -= amount`
unfoldable pub lower_stack : ℤ → M (Unit {0})
unfolding ◌-ℤ◌
lower_stack amount vm = elim (in_ptrdiff (vm.stack_pointer -ℤ amount)) [
  | some z ↦ ok tt (record vm { stack_pointer = z })
  | none ↦ undefined
]

unfoldable pub alloca : ℕ → M (Unit {0})
unfolding lower_stack
alloca amount = do
  v ← get_register_value int64 amount
  elim v [ Scalar.int64 z ↦ lower_stack z | _ ↦ return tt ]

unfoldable pub mov_sp_i : ℤ → ℕ → M (Unit {0})
unfolding make_pointer ◌+ℤ◌
mov_sp_i offset dst = do
  vm ← get_vm
  sum ← defined (in_ptrdiff (vm.stack_pointer +ℤ offset))
  write_register dst (make_pointer AddressSpace.stack (wrap (2 ^ 64) sum))

module _ (floats : Floats) where
  unfoldable pub register_unary : ScalarType → UnaryFn → ℕ → ℕ → M (Unit {0})
  register_unary t fn src dst = do
    v ← get_register_value t src
    r ← defined (apply_unary floats fn v)
    set_register_value dst r

  unfoldable pub register_binary : ScalarType → BinaryFn → ℕ → ℕ → ℕ → M (Unit {0})
  register_binary t fn lhs rhs dst = do
    a ← get_register_value t lhs
    b ← get_register_value t rhs
    r ← defined (apply_binary floats fn a b)
    set_register_value dst r

  unfoldable pub constant_binary : ScalarType → BinaryFn → ℕ → ℕ → ℕ → M (Unit {0})
  constant_binary t fn lhs rhs dst = do
    a ← get_register_value t lhs
    b ← get_constant_value t rhs
    r ← defined (apply_binary floats fn a b)
    set_register_value dst r

  unfoldable pub immediate_binary : ScalarType → BinaryFn → ℕ → ℤ → ℕ → M (Unit {0})
  immediate_binary t fn lhs rhs dst = do
    a ← get_register_value t lhs
    b ← defined (immediate_operand t rhs)
    r ← defined (apply_binary floats fn a b)
    set_register_value dst r
