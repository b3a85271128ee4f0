-- ===== src/Vm/Machine.antt =====
-- The state of `Virtual_machine` (code/vm/include/vm/vm.h) and the monad that its code is written in.
-- The machine has a module loaded. An instruction pointer is a position in the module's code, or it
-- points to the exit byte that `call` puts on the C++ stack, or past it. The stack memory has 2 ^ 24
-- bytes. What C++ leaves undefined, a read or write out of bounds among them, is `undefined`.
use basedlang.Prelude.{
  ◌≡◌, ℕ, zero, suc, ◌+◌, ◌-◌, ◌*◌, ◌/◌, ◌%◌, ◌^◌, Option, some, none, List, [], ◌++◌, ltb, ◌==◌,
  if◌then◌else◌, length, get_elem?, set, take, replicate,
}
use basedlang.Prelude.Int.{ℤ, pos, negsuc}
use basedlang.Bytecode.Module.{ScalarType, Module}
use basedlang.Bytecode.Opcode.{Opcode, to_byte}
use basedlang.Vm.Scalar.{Scalar, from_bits, to_bits}

pub data Ip : Type 0 where
  in_code : ℕ → Ip
  on_exit_byte past_exit_byte : Ip

-- `struct Call_frame`
pub record CallFrame : Type 0 where
  pub return_address : Ip
  pub base_register : ℕ
  pub stack_pointer : ℤ
  pub return_register : Option ℕ

-- The members of `class Virtual_machine`; the newest call frame comes first.
pub record Vm : Type 0 where
  pub program : Module
  pub instruction_pointer : Ip
  pub registers : List ℕ
  pub stack : ℕ → ℕ
  pub stack_pointer : ℤ
  pub base_register : ℕ
  pub call_stack : List CallFrame

-- The exceptions of vm.h and the runtime errors of vm.cpp.
pub data VmError : Type 0 where
  unknown_function : ℕ → VmError
  argument_count : ℕ → ℕ → VmError
  argument_type unsupported_argument_type : ℕ → ScalarType → VmError
  unsupported_load store_to_constant unsupported_store : VmError
  unimplemented_opcode unimplemented_wide_opcode : VmError

-- How code ends: with a value, with an exception and the state that it leaves, or not at all.
pub data Outcome (A : Type 0) : Type 0 where
  ok : A → Vm → Outcome A
  throw : VmError → Vm → Outcome A
  undefined out_of_fuel : Outcome A

abbrev pub M : Type 0 → Type 0
M A = Vm → Outcome A

infixl 5 ◌>>=◌ ◌>>◌
abbrev pub ◌>>=◌ : {A B : Type 0} → M A → (A → M B) → M B
◌>>=◌ m f vm = elim (m vm) [
  | ok a vm' ↦ f a vm'
  | throw e vm' ↦ throw e vm'
  | undefined ↦ undefined
  | out_of_fuel ↦ out_of_fuel
]

abbrev pub ◌>>◌ : {B : Type 0} → M (Unit {0}) → M B → M B
m >> k = m >>= λ _. k

abbrev pub return : {A : Type 0} → A → M A
return a vm = ok a vm

abbrev pub fail : {A : Type 0} → VmError → M A
fail e vm = throw e vm

-- `none` is what C++ leaves undefined.
abbrev pub defined : {A : Type 0} → Option A → M A
defined (some a) vm = ok a vm
defined none vm = undefined

abbrev pub get_vm : M Vm
get_vm vm = ok vm vm

-- `*instruction_pointer++`
unfoldable pub next_byte : M ℕ
next_byte vm = elim (vm.instruction_pointer) [
  | in_code p ↦ elim (get_elem? (vm.program.code) p) [
    | some b ↦ ok b (record vm { instruction_pointer = in_code (suc p) })
    | none ↦ undefined
  ]
  | on_exit_byte ↦ ok (to_byte Opcode.exit) (record vm { instruction_pointer = past_exit_byte })
  | past_exit_byte ↦ undefined
]

-- `instruction_pointer += offset`
unfoldable pub move_ip : Ip → ℤ → Option Ip
move_ip (in_code p) (pos n) = some (in_code (p + n))
move_ip (in_code p) (negsuc n) = if ltb n p then some (in_code (p - suc n)) else none
move_ip on_exit_byte d = none
move_ip past_exit_byte d = none

unfoldable pub jump_by : ℤ → M (Unit {0})
unfolding move_ip
jump_by d vm = elim (move_ip (vm.instruction_pointer) d) [
  | some ip ↦ ok tt (record vm { instruction_pointer = ip })
  | none ↦ undefined
]

-- `*absolute_register(index)`, read and written
unfoldable pub read_absolute : ℕ → M ℕ
read_absolute i vm = defined (get_elem? (vm.registers) i) vm

unfoldable pub write_absolute : ℕ → ℕ → M (Unit {0})
write_absolute i v vm =
    if ltb i (length (vm.registers))
    then ok tt (record vm { registers = set (vm.registers) i v })
    else undefined

-- `*relative_register(offset)`, read and written
unfoldable pub read_register : ℕ → M ℕ
unfolding read_absolute
read_register r vm = read_absolute (vm.base_register + r) vm

unfoldable pub write_register : ℕ → ℕ → M (Unit {0})
unfolding write_absolute
write_register r v vm = write_absolute (vm.base_register + r) v vm

-- `get_register_value<T>` and `set_register_value`
unfoldable pub get_register_value : ScalarType → ℕ → M Scalar
unfolding read_register from_bits
get_register_value t r = do v ← read_register r; return (from_bits t v)

unfoldable pub set_register_value : ℕ → Scalar → M (Unit {0})
unfolding write_register to_bits
set_register_value r v = write_register r (to_bits v)

-- `memcpy` of `n` bytes from an address into an integer, low byte first.
unfoldable pub read_le : (ℕ → Option ℕ) → ℕ → ℕ → Option ℕ
read_le memory zero address = some 0
read_le memory (suc n) address = elim (memory address) [
  | none ↦ none
  | some b ↦ elim (read_le memory n (suc address)) [ none ↦ none | some v ↦ some (b + 256 * v) ]
]

-- `memcpy` of the `n` low bytes of `v` to an address.
unfoldable pub write_le : (ℕ → ℕ) → ℕ → ℕ → ℕ → ℕ → ℕ
write_le memory zero address v = memory
write_le memory (suc n) address v =
    write_le (λ a. if a == address then v % 256 else memory a) n (suc address) (v / 256)

abbrev pub stack_size : ℕ
stack_size = 2 ^ 24

unfoldable pub stack_byte : (ℕ → ℕ) → ℕ → Option ℕ
stack_byte memory a = if ltb a stack_size then some (memory a) else none

-- An address computed from a signed sum; one before the start of the memory is undefined.
abbrev pub address_of : ℤ → Option ℕ
address_of (pos n) = some n
address_of (negsuc n) = none

-- `grow_registers`, called with a size that is not smaller.
unfoldable pub grow_registers : ℕ → List ℕ → List ℕ
grow_registers new_size registers =
    take new_size registers ++ replicate (new_size - length registers) 0

-- `sizeof(T)`, the size of a constant
unfoldable pub size_of : ScalarType → ℕ
size_of ScalarType.int8 = 1
size_of ScalarType.int16 = 2
size_of ScalarType.int32 = 4
size_of ScalarType.int64 = 8
size_of ScalarType.float_ = 4
size_of ScalarType.double_ = 8
size_of ScalarType.bool_ = 1
size_of ScalarType.void_ = 0

-- `get_constant_value<T>`
unfoldable pub get_constant_value : ScalarType → ℕ → M Scalar
unfolding size_of read_le from_bits
get_constant_value t k vm = elim (get_elem? (vm.program.constant_table) k) [
  | none ↦ undefined
  | some offset ↦ elim (read_le (get_elem? (vm.program.constant_data)) (size_of t) offset) [
    | none ↦ undefined
    | some v ↦ ok (from_bits t v) vm
  ]
]

-- `load`, on a machine that its constructor has made
unfoldable pub load : Module → Vm
load m = record {
  program = m;
  instruction_pointer = in_code 0;
  registers = [];
  stack = λ _. 0;
  stack_pointer = pos stack_size;
  base_register = 0;
  call_stack = [];
}

-- A statement that ends with a value hands it and its state to what follows.
pub >>=-ok :
    {A B : Type 0} (m : M A) (f : A → M B) (vm vm' : Vm) (a : A)
    → m vm ≡ ok a vm'
    → (m >>= f) vm ≡ f a vm'
>>=-ok m f vm vm' a e = rw (e, ◌>>=◌)
