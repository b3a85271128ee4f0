-- ===== src/Tests/Samples.antt =====
-- Sample machines, builders and modules.
use basedlang.Prelude.{ℕ, ◌+◌, ◌%◌, ◌^◌, not, none, some, List, [], ◌∷◌, ltb, leb, ◌==◌}
use basedlang.Prelude.Int.{pos}
use basedlang.Bytecode.Module.{Module, int32}
use basedlang.Bytecode.Opcode.{Opcode, to_byte}
use basedlang.Bytecode.Writer.{Writer}
use basedlang.Bytecode.Builder.{Builder}
use basedlang.Vm.Machine.{Vm, in_code}
use basedlang.Vm.Arithmetic.{FloatOps, Floats}

-- An arithmetic on bit patterns, in place of the processor's.
abbrev pub float_ops : ℕ → FloatOps
float_ops half = record {
  neg = λ a. (a + half) % (half + half);
  add = λ a b. (a + b) % (half + half);
  sub = λ a b. a;
  mul = λ a b. a;
  div = λ a b. a;
  eq = λ a b. a == b;
  ne = λ a b. not (a == b);
  lt = λ a b. ltb a b;
  le = λ a b. leb a b;
  gt = λ a b. ltb b a;
  ge = λ a b. leb b a;
}

abbrev pub floats : Floats
floats = record { single = float_ops (2 ^ 31); double = float_ops (2 ^ 63) }

abbrev pub module_of : List ℕ → Module
module_of code = record {
  code = code;
  constant_data = [];
  constant_table = [];
  functions = [];
  function_indices = [];
}

-- A machine with this code and a register window of four registers behind one of the caller's.
abbrev pub machine : List ℕ → Vm
machine code = record {
  program = module_of code;
  instruction_pointer = in_code 0;
  registers = 9 ∷ 0 ∷ 20 ∷ 22 ∷ 4 ∷ [];
  stack = λ _. 0;
  stack_pointer = pos (2 ^ 24);
  base_register = 1;
  call_stack = [];
}

abbrev pub one_byte : Writer
one_byte = record { stream = to_byte Opcode.exit ∷ []; position = 1 }

abbrev pub fresh : Builder
fresh = record {
  writer = record { stream = []; position = 0 };
  constant_data = [];
  constant_table = [];
  functions = [];
  function_indices = [];
  label_positions = [];
  unresolved = [];
}

-- One label has been made.
abbrev pub labelled : Builder
labelled = record fresh { label_positions = none ∷ [] }

-- A jump to the label has been emitted; then an `exit`, and the label placed behind it.
abbrev pub jumping : Builder
jumping = record labelled {
  writer = record {
    stream = to_byte Opcode.wide ∷ to_byte Opcode.jmp_i ∷ 0 ∷ 0 ∷ [];
    position = 4;
  };
  unresolved = (2, 0) ∷ [];
}

abbrev pub jumped : Builder
jumped = record jumping {
  writer = record {
    stream = to_byte Opcode.wide ∷ to_byte Opcode.jmp_i ∷ 0 ∷ 0 ∷ to_byte Opcode.exit ∷ [];
    position = 5;
  };
}

abbrev pub jump_code : List ℕ
jump_code = to_byte Opcode.wide ∷ to_byte Opcode.jmp_i ∷ 1 ∷ 0 ∷ to_byte Opcode.exit ∷ []

-- The same with a conditional jump on register 2.
abbrev pub branching : Builder
branching = record labelled {
  writer = record {
    stream = to_byte Opcode.wide ∷ to_byte Opcode.jnz_i ∷ 2 ∷ 0 ∷ 0 ∷ 0 ∷ [];
    position = 6;
  };
  unresolved = (4, 0) ∷ [];
}

abbrev pub branched : Builder
branched = record branching {
  writer = record {
    stream = to_byte Opcode.wide ∷ to_byte Opcode.jnz_i ∷ 2 ∷ 0 ∷ 0 ∷ 0 ∷ to_byte Opcode.exit ∷ [];
    position = 7;
  };
}

abbrev pub branch_code : List ℕ
branch_code = to_byte Opcode.wide ∷ to_byte Opcode.jnz_i ∷ 2 ∷ 0 ∷ 1 ∷ 0 ∷ to_byte Opcode.exit ∷ []

abbrev pub placed_at : Builder → ℕ → Builder
placed_at b t = record b { label_positions = some t ∷ [] }

-- A machine whose only function takes an int32, has four registers and starts at position 3.
abbrev pub callable : Vm
callable = record (machine []) {
  program = record (module_of []) {
    functions =
        record {
          position = some 3;
          parameter_types = int32 ∷ [];
          return_type = int32;
          register_count = 4;
        }
        ∷ [];
    function_indices = (70, 0) ∷ [];
  };
}
