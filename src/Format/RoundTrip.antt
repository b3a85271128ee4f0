-- ===== src/Format/RoundTrip.antt =====
-- The writer and the machine agree: what an emitter writes, a step of the machine carries out
-- (code/bytecode/src/bytecode_writer.cpp against code/vm/src/vm.cpp).
use basedlang.Prelude.{
  ℕ, ◌+◌, ◌≡◌, refl, false, List, [], ◌∷◌, ◌++◌, length, append_assoc, ap, ◌∙◌, sym, subst,
}
use basedlang.Bytecode.Opcode.{Opcode}
use basedlang.Bytecode.Writer.{Writer}
use basedlang.Bytecode.Instruction.{
  Emitter, unary_register, unary_immediate, immediate_register, binary_register, binary_constant,
  binary_immediate, call_i, call_void_i, ret, ret_void, lookup_k, alloca, alloca_i, special,
  emitter, Args, emit_with, emit,
}
use basedlang.Vm.Machine.{Vm, ◌>>◌, return}
use basedlang.Vm.Arithmetic.{Floats}
use basedlang.Vm.Handler.{handler}
use basedlang.Vm.Dispatch.{step}
use basedlang.Format.Defs.{Operand, unsigned, signed, encoding, width_of, AreWords, Holds}
use basedlang.Format.Decodes.{at, HoldsAt}
use basedlang.Format.Emits.{
  append, Encodes, emit_unary_register_instruction_lem, emit_unary_immediate_instruction_lem,
  emit_immediate_register_instruction_lem, emit_binary_register_instruction_lem,
  emit_binary_constant_instruction_lem, emit_binary_immediate_instruction_lem, emit_call_i_lem,
  emit_call_void_i_lem, emit_ret_lem, emit_ret_void_lem, emit_lookup_k_lem, emit_alloca_lem,
  emit_alloca_i_lem,
}
use basedlang.Format.Instructions.{
  Operands, operands, perform, unsigned₂, unsigned₃, signed_unsigned, based,
}
use basedlang.Format.Code.{Holds-middle}
use basedlang.Format.Steps.{step-encoding}

-- For each opcode the arguments of its emitter are the operands of its template.
unfoldable pub decoded : (op : Opcode) → Args (emitter op) → Operands (handler op)
unfolding emitter handler
decoded Opcode.exit a = absurd a
decoded Opcode.wide a = absurd a
decoded Opcode.jmp_i a = absurd a
decoded Opcode.jnz_i a = absurd a
decoded _ a = a

-- What an emitter writes of its arguments, and the opcode that it writes.
abbrev written : (e : Emitter) → Args e → List Operand
written unary_register a = unsigned₂ a
written unary_immediate a = signed_unsigned a
written immediate_register a = signed_unsigned a
written binary_register a = unsigned₃ a
written binary_constant a = unsigned₃ a
written binary_immediate a = based a
written call_i a = unsigned₃ a
written call_void_i a = unsigned₂ a
written ret a = unsigned a ∷ []
written ret_void a = []
written lookup_k a = unsigned₂ a
written alloca a = unsigned a ∷ []
written alloca_i a = signed a ∷ []
written special a = []

abbrev opcode_of : Emitter → Opcode → Opcode
opcode_of call_i op = Opcode.call_i
opcode_of call_void_i op = Opcode.call_void_i
opcode_of ret op = Opcode.ret
opcode_of ret_void op = Opcode.ret_void
opcode_of lookup_k op = Opcode.lookup_k
opcode_of alloca op = Opcode.alloca
opcode_of alloca_i op = Opcode.alloca_i
opcode_of _ op = op

emit_with-Encodes :
    (e : Emitter) (op : Opcode) (a : Args e)
    → Encodes (emit_with e op a) (opcode_of e op) (written e a)
emit_with-Encodes unary_register op (a, b) = emit_unary_register_instruction_lem op a b
emit_with-Encodes unary_immediate op (a, b) = emit_unary_immediate_instruction_lem op a b
emit_with-Encodes immediate_register op (a, b) = emit_immediate_register_instruction_lem op a b
emit_with-Encodes binary_register op (a, b, c) = emit_binary_register_instruction_lem op a b c
emit_with-Encodes binary_constant op (a, b, c) = emit_binary_constant_instruction_lem op a b c
emit_with-Encodes binary_immediate op (a, b, c) = emit_binary_immediate_instruction_lem op a b c
emit_with-Encodes call_i op (a, b, c) = emit_call_i_lem a b c
emit_with-Encodes call_void_i op (a, b) = emit_call_void_i_lem a b
emit_with-Encodes ret op a = emit_ret_lem a
emit_with-Encodes ret_void op a = emit_ret_void_lem
emit_with-Encodes lookup_k op (a, b) = emit_lookup_k_lem a b
emit_with-Encodes alloca op a = emit_alloca_lem a
emit_with-Encodes alloca_i op a = emit_alloca_i_lem a
emit_with-Encodes special op a = absurd a

opcode_of-emitter : (op : Opcode) → opcode_of (emitter op) op ≡ op
unfolding emitter
opcode_of-emitter Opcode.exit = refl
opcode_of-emitter _ = refl

written-decoded :
    (op : Opcode) (a : Args (emitter op))
    → written (emitter op) a ≡ operands (handler op) (decoded op a)
unfolding emitter handler decoded
written-decoded Opcode.exit a = absurd a
written-decoded Opcode.wide a = absurd a
written-decoded Opcode.jmp_i a = absurd a
written-decoded Opcode.jnz_i a = absurd a
written-decoded _ a = refl

-- For every opcode but `exit`, `wide`, `jmp_i` and `jnz_i`: its emitter appends the opcode's byte and the
-- operands that the opcode's template reads, in that order, in the narrow form if all of them fit
-- there, and in the wide form behind `wide` if one does not.
pub emit-Encodes :
    (op : Opcode) (a : Args (emitter op))
    → Encodes (emit op a) op (operands (handler op) (decoded op a))
unfolding emit
emit-Encodes op a w =
    emit_with-Encodes (emitter op) op a w
    ∙ ap (λ o. append (encoding (width_of (written (emitter op) a)) o (written (emitter op) a)) w)
        (opcode_of-emitter op)
    ∙ ap (λ os. append (encoding (width_of os) op os) w) (written-decoded op a)

-- The writer's position is the number of bytes that it has written.
abbrev pub IsPositioned : Writer → Type 0
IsPositioned w = w.position ≡ length w.stream

-- The code of the machine begins with what the writer has written.
abbrev pub HasCode : Vm → Writer → List ℕ → Type 0
HasCode vm w rest = vm.program.code ≡ w.stream ++ rest

pub append-HoldsAt :
    (vm : Vm) (w : Writer) (bs rest : List ℕ)
    → IsPositioned w
    → HasCode vm (append bs w) rest
    → HoldsAt vm (w.position) bs (w.position + length bs)
append-HoldsAt vm w bs rest e c =
    subst (λ code. Holds code (w.position) bs (w.position + length bs))
      (sym (c ∙ append_assoc (w.stream) bs rest)) (Holds-middle (w.stream) bs rest (w.position) e)

pub Encodes-step :
    (floats : Floats) (vm : Vm) (f : Writer → Writer) (op : Opcode) (os : Operands (handler op))
    (w : Writer) (rest : List ℕ)
    → Encodes f op (operands (handler op) os)
    → AreWords (operands (handler op) os)
    → IsPositioned w
    → HasCode vm (f w) rest
    → step floats (at vm (w.position))
      ≡ (perform floats (handler op) os >> return false) (at vm ((f w).position))
Encodes-step floats vm f op os w rest enc ws e c =
    step-encoding floats vm op os (w.position)
      (w.position
        + length (encoding (width_of (operands (handler op) os)) op (operands (handler op) os)))
      ws
      (append-HoldsAt vm w
        (encoding (width_of (operands (handler op) os)) op (operands (handler op) os)) rest e
        (subst (λ x. HasCode vm x rest) (enc w) c))
    ∙ ap (λ q. (perform floats (handler op) os >> return false) (at vm q))
        (sym (ap (λ x. x.position) (enc w)))

module _ (floats : Floats) (vm : Vm) (op : Opcode) (a : Args (emitter op)) (w : Writer) where
  -- For every opcode that has an emitter with plain operands, of 16 bits each: where the machine's
  -- code holds what the emitter wrote, whatever stands behind it, one step from the position before
  -- the emission decodes exactly the emitted operands, does with them what the opcode's template
  -- does, and does it with the instruction pointer at the position after the emission.
  pub emit-step :
      (rest : List ℕ)
      → AreWords (operands (handler op) (decoded op a))
      → IsPositioned w
      → HasCode vm (emit op a w) rest
      → step floats (at vm (w.position))
        ≡ (perform floats (handler op) (decoded op a) >> return false)
            (at vm ((emit op a w).position))
  emit-step rest ws e c =
      Encodes-step floats vm (emit op a) op (decoded op a) w rest (emit-Encodes op a) ws e c
