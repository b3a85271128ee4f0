-- ===== src/Tests/Linking.antt =====
-- Jumps to labels, validity and constants at concrete builders.
use basedlang.Prelude.{ℕ, ◌≡◌, refl, false, some, [], ◌∷◌, get_elem?, arith}
use basedlang.Prelude.Int.{pos}
use basedlang.Bytecode.Module.{Module, int16}
use basedlang.Bytecode.Builder.{
  Builder, ok, new, make_label, place_label, target, emit_jmp_label, emit_jnz_label,
}
use basedlang.Bytecode.Emitter.{emit_exit, emit_jmp_to, emit_jnz_to}
use basedlang.Bytecode.Writer.{emit_opcode, write_byte, write_wide_register, write_wide_immediate}
use basedlang.Bytecode.Build.{build, all_placed, patch}
use basedlang.Bytecode.Building.{
  exits, jumps_to_label, makes_label, places_label, interns, Steps, done, next, IsValid, Extends,
}
use basedlang.Bytecode.Constants.{bytes_eq, held_at, find_constant, constant}
use basedlang.Vm.Machine.{Outcome, size_of, get_constant_value}
use basedlang.Vm.Scalar.{Scalar, from_bits}
use basedlang.Vm.Dispatch.{step}
use basedlang.Format.Decodes.{at}
use basedlang.Linking.Valid.{reachable-IsValid, Steps-Extends}
use basedlang.Linking.ForwardJumps.{emit_jmp_label-step, emit_jnz_label-step}
use basedlang.Linking.Pool.{Fine, constant-Interned}
use basedlang.Linking.ConstantValues.{constant-get_constant_value}
use basedlang.Tests.Samples.{
  floats, module_of, machine, fresh, labelled, jumping, jumped, jump_code, branching, branched,
  branch_code, placed_at,
}

labelled-Steps : Steps new labelled
unfolding new make_label
labelled-Steps = next done makes_label

labelled-IsValid : IsValid labelled
labelled-IsValid = reachable-IsValid labelled-Steps

jumping_lem : emit_jmp_label 0 labelled ≡ ok jumping
unfolding emit_jmp_label target emit_jmp_to emit_opcode write_byte write_wide_immediate
jumping_lem = refl

jumped-Steps : Steps jumping (placed_at jumped 5)
unfolding emit_exit emit_opcode write_byte place_label
jumped-Steps = next (next done exits) (places_label 0 refl)

build-jumped : build (placed_at jumped 5) ≡ ok (module_of jump_code)
unfolding build patch all_placed
build-jumped = refl

emit_jmp_label-step_example :
    (t : ℕ) × (get_elem? (some 5 ∷ []) 0 ≡ some (some t))
    × (step floats (at (machine jump_code) 0) ≡ Outcome.ok false (at (machine jump_code) t))
emit_jmp_label-step_example =
    emit_jmp_label-step floats (machine jump_code) labelled jumping (placed_at jumped 5) 0
      (module_of jump_code) labelled-IsValid refl jumping_lem jumped-Steps build-jumped
      (omega arith) refl

branching_lem : emit_jnz_label 2 0 labelled ≡ ok branching
unfolding emit_jnz_label target emit_jnz_to emit_opcode write_byte write_wide_register
    write_wide_immediate
branching_lem = refl

branched-Steps : Steps branching (placed_at branched 7)
unfolding emit_exit emit_opcode write_byte place_label
branched-Steps = next (next done exits) (places_label 0 refl)

build-branched : build (placed_at branched 7) ≡ ok (module_of branch_code)
unfolding build patch all_placed
build-branched = refl

-- Register 2 of the window holds 22, so that the machine goes to the label.
emit_jnz_label-step_example :
    (t : ℕ) × (get_elem? (some 7 ∷ []) 0 ≡ some (some t))
    × (step floats (at (machine branch_code) 0) ≡ Outcome.ok false (at (machine branch_code) t))
emit_jnz_label-step_example =
    emit_jnz_label-step floats (machine branch_code) labelled branching (placed_at branched 7) 0
      (module_of branch_code) labelled-IsValid refl 2 22 (omega arith) branching_lem branched-Steps
      build-branched (omega arith) refl refl

-- From a new builder: a label, a jump to it, an `exit`, and the label placed behind it.
built_up-Steps : Steps new (placed_at jumped 5)
unfolding emit_exit emit_opcode write_byte place_label
built_up-Steps =
    next (next (next labelled-Steps (jumps_to_label 0 jumping_lem)) exits) (places_label 0 refl)

reachable-IsValid_example : IsValid (placed_at jumped 5)
reachable-IsValid_example = reachable-IsValid built_up-Steps

Steps-Extends_example : Extends jumping (placed_at jumped 5)
Steps-Extends_example = Steps-Extends jumped-Steps

-- A second constant of two bytes, and the same again.
abbrev pooled : Builder
pooled = record fresh { constant_data = 1 ∷ 2 ∷ []; constant_table = 0 ∷ [] }

abbrev pooled_twice : Builder
pooled_twice = record fresh { constant_data = 1 ∷ 2 ∷ 7 ∷ 1 ∷ []; constant_table = 0 ∷ 2 ∷ [] }

constant-pooled : constant (7 ∷ 1 ∷ []) pooled ≡ ok (1, pooled_twice)
unfolding constant find_constant held_at bytes_eq
constant-pooled = refl

constant-again : constant (7 ∷ 1 ∷ []) pooled_twice ≡ ok (1, pooled_twice)
unfolding constant find_constant held_at bytes_eq
constant-again = refl

constant-Interned_example : Fine (7 ∷ 1 ∷ []) pooled (constant (7 ∷ 1 ∷ []) pooled)
constant-Interned_example = constant-Interned (7 ∷ 1 ∷ []) pooled (omega arith)

-- Two constants are interned, the second of them 7 and 1, and a third.
abbrev pooled_more : Builder
pooled_more = record pooled_twice {
  constant_data = 1 ∷ 2 ∷ 7 ∷ 1 ∷ 5 ∷ [];
  constant_table = 0 ∷ 2 ∷ 4 ∷ [];
}

pooled-Steps : Steps new pooled
unfolding new constant find_constant held_at bytes_eq
pooled-Steps = next done (interns (1 ∷ 2 ∷ []) 0 refl)

pooled_more-Steps : Steps pooled_twice pooled_more
unfolding constant find_constant held_at bytes_eq
pooled_more-Steps = next done (interns (5 ∷ []) 2 refl)

abbrev constants_module : Module
constants_module = record (module_of []) {
  constant_data = 1 ∷ 2 ∷ 7 ∷ 1 ∷ 5 ∷ [];
  constant_table = 0 ∷ 2 ∷ 4 ∷ [];
}

build-pooled_more : build pooled_more ≡ ok constants_module
unfolding build patch all_placed
build-pooled_more = refl

-- The bytes 7 and 1 are 263, low byte first.
constant-get_constant_value_example :
    get_constant_value int16 1 (record (machine []) { program = constants_module })
    ≡ Outcome.ok (Scalar.int16 (pos 263)) (record (machine []) { program = constants_module })
unfolding from_bits size_of
constant-get_constant_value_example =
    constant-get_constant_value int16 (7 ∷ 1 ∷ []) pooled pooled_twice pooled_more 1
      constants_module (record (machine []) { program = constants_module }) pooled-Steps
      constant-pooled pooled_more-Steps build-pooled_more refl refl
