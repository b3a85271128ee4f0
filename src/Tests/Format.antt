-- ===== src/Tests/Format.antt =====
-- Emitted instructions, and the machine's steps over them, at concrete inputs.
use basedlang.Prelude.{◌≡◌, ◌↔◌, refl, false, [], ◌∷◌, ◌++◌, arith}
use basedlang.Prelude.Int.{sub_ℕ}
use basedlang.Words.{in_range}
use basedlang.Bytecode.Opcode.{Opcode, to_byte}
use basedlang.Bytecode.Writer.{
  Writer, Emit, throw, jmp_target_out_of_range, jnz_target_out_of_range, emit_opcode, write_byte,
  is_wide, write_wide_register, write_wide_immediate, emit_binary_register_instruction,
}
use basedlang.Bytecode.Emitter.{emit_jmp, emit_jnz}
use basedlang.Bytecode.Instruction.{emitter, Args, emit}
use basedlang.Vm.Machine.{Outcome, ◌>>◌, return}
use basedlang.Vm.Handler.{handler}
use basedlang.Vm.Dispatch.{step}
use basedlang.Format.Decodes.{at}
use basedlang.Format.Emits.{Encodes}
use basedlang.Format.Instructions.{operands, perform}
use basedlang.Format.RoundTrip.{decoded, emit-Encodes, emit-step}
use basedlang.Format.JumpTargets.{
  emit_jmp-step, emit_jnz-step, emit_jmp-throw_iff, emit_jnz-throw_iff,
}
use basedlang.Tests.Samples.{floats, machine, one_byte}

unfoldable arguments : Args (emitter Opcode.add_i32)
unfolding emitter
arguments = (1, 300, 3)

-- The second register needs two bytes, so the instruction is in the wide form.
add_bytes : emit Opcode.add_i32 arguments one_byte ≡ record {
  stream =
      to_byte Opcode.exit
      ∷ to_byte Opcode.wide
      ∷ to_byte Opcode.add_i32
      ∷ 1
      ∷ 0
      ∷ 44
      ∷ 1
      ∷ 3
      ∷ 0
      ∷ [];
  position = 9;
}
unfolding arguments emit emitter emit_binary_register_instruction is_wide emit_opcode write_byte
    write_wide_register
add_bytes = refl

emit-Encodes_example :
    Encodes
      (emit Opcode.add_i32 arguments)
      Opcode.add_i32
      (operands (handler Opcode.add_i32) (decoded Opcode.add_i32 arguments))
emit-Encodes_example = emit-Encodes Opcode.add_i32 arguments

emit-step_example :
    step floats (at (machine ((emit Opcode.add_i32 arguments one_byte).stream ++ 7 ∷ [])) 1)
    ≡ (perform floats (handler Opcode.add_i32) (decoded Opcode.add_i32 arguments) >> return false) (
        at
          (machine ((emit Opcode.add_i32 arguments one_byte).stream ++ 7 ∷ []))
          (emit Opcode.add_i32 arguments one_byte).position)
unfolding handler decoded arguments
emit-step_example =
    emit-step floats (machine ((emit Opcode.add_i32 arguments one_byte).stream ++ 7 ∷ []))
      Opcode.add_i32 arguments one_byte (7 ∷ []) (omega arith, (omega arith, (omega arith, tt)))
      refl refl

-- A jump back to the start, in the narrow form: two bytes behind the one that is there.
abbrev back : Writer
back = record { stream = to_byte Opcode.exit ∷ to_byte Opcode.jmp_i ∷ 253 ∷ []; position = 3 }

emit_jmp-back : emit_jmp 0 one_byte ≡ Emit.ok back
unfolding emit_jmp emit_opcode write_byte
emit_jmp-back = refl

emit_jmp-step_example :
    step floats (at (machine (back.stream)) 1) ≡ Outcome.ok false (at (machine (back.stream)) 0)
emit_jmp-step_example =
    emit_jmp-step floats (machine (back.stream)) 0 one_byte back [] emit_jmp-back refl refl

-- A jump on register 2 of the window, to position 1000, in the wide form.
abbrev far : Writer
far = record {
  stream = to_byte Opcode.exit ∷ to_byte Opcode.wide ∷ to_byte Opcode.jnz_i ∷ 2 ∷ 0 ∷ 225 ∷ 3 ∷ [];
  position = 7;
}

emit_jnz-far : emit_jnz 2 1000 one_byte ≡ Emit.ok far
unfolding emit_jnz is_wide emit_opcode write_byte write_wide_register write_wide_immediate
emit_jnz-far = refl

emit_jnz-step_example :
    step floats (at (machine (far.stream)) 1) ≡ Outcome.ok false (at (machine (far.stream)) 1000)
emit_jnz-step_example =
    emit_jnz-step floats (machine (far.stream)) 1000 one_byte far [] 2 22 (omega arith) emit_jnz-far
      refl refl refl

emit_jmp-throw_iff_example :
    (emit_jmp 40000 one_byte ≡ throw jmp_target_out_of_range)
    ↔ (in_range 32768 (sub_ℕ 40000 5) ≡ false)
emit_jmp-throw_iff_example = emit_jmp-throw_iff 40000 one_byte

emit_jnz-throw_iff_example :
    (emit_jnz 2 40000 one_byte ≡ throw jnz_target_out_of_range)
    ↔ (in_range 32768 (sub_ℕ 40000 7) ≡ false)
emit_jnz-throw_iff_example = emit_jnz-throw_iff 2 40000 one_byte
