-- ===== src/Bytecode/Instruction.antt =====
-- The emitter of each opcode in code/bytecode/src/bytecode_writer.cpp: the `DEFINE_..._EMITTER` lines,
-- and the emitters with a body of their own.
use basedlang.Prelude.{ℕ}
use basedlang.Prelude.Int.{ℤ}
use basedlang.Bytecode.Opcode.{Opcode}
use basedlang.Bytecode.Writer.{
  Writer, emit_unary_register_instruction, emit_unary_immediate_instruction,
  emit_immediate_register_instruction, emit_binary_register_instruction,
  emit_binary_constant_instruction, emit_binary_immediate_instruction,
}
use basedlang.Bytecode.Emitter.{
  emit_call_i, emit_call_void_i, emit_ret, emit_ret_void, emit_lookup_k, emit_alloca_i, emit_alloca,
}

-- `special` are `exit` and the prefix `wide`, which have no operands, and the two jumps, whose
-- emitters take a target.
pub data Emitter : Type 0 where
  unary_register unary_immediate immediate_register : Emitter
  binary_register binary_constant binary_immediate : Emitter
  call_i call_void_i ret ret_void lookup_k alloca alloca_i : Emitter
  special : Emitter

unfoldable pub emitter : Opcode → Emitter
emitter Opcode.exit = special
emitter Opcode.wide = special
emitter Opcode.jmp_i = special
emitter Opcode.jnz_i = special
emitter Opcode.call_i = call_i
emitter Opcode.call_void_i = call_void_i
emitter Opcode.ret = ret
emitter Opcode.ret_void = ret_void
emitter Opcode.lookup_k = lookup_k
emitter Opcode.load_8 = binary_immediate
emitter Opcode.load_16 = binary_immediate
emitter Opcode.load_32 = binary_immediate
emitter Opcode.load_64 = binary_immediate
emitter Opcode.store_8 = binary_immediate
emitter Opcode.store_16 = binary_immediate
emitter Opcode.store_32 = binary_immediate
emitter Opcode.store_64 = binary_immediate
emitter Opcode.alloca = alloca
emitter Opcode.alloca_i = alloca_i
emitter Opcode.load_sp_8 = immediate_register
emitter Opcode.load_sp_16 = immediate_register
emitter Opcode.load_sp_32 = immediate_register
emitter Opcode.load_sp_64 = immediate_register
emitter Opcode.store_sp_8 = immediate_register
emitter Opcode.store_sp_16 = immediate_register
emitter Opcode.store_sp_32 = immediate_register
emitter Opcode.store_sp_64 = immediate_register
emitter Opcode.mov = unary_register
emitter Opcode.mov_i = unary_immediate
emitter Opcode.mov_sp_i = unary_immediate
emitter Opcode.sx_8 = unary_register
emitter Opcode.sx_16 = unary_register
emitter Opcode.sx_32 = unary_register
emitter Opcode.neg_i32 = unary_register
emitter Opcode.neg_i64 = unary_register
emitter Opcode.neg_f32 = unary_register
emitter Opcode.neg_f64 = unary_register
emitter Opcode.add_i32 = binary_register
emitter Opcode.add_i32_k = binary_constant
emitter Opcode.add_i32_i = binary_immediate
emitter Opcode.add_i64 = binary_register
emitter Opcode.add_i64_k = binary_constant
emitter Opcode.add_i64_i = binary_immediate
emitter Opcode.add_f32 = binary_register
emitter Opcode.add_f32_k = binary_constant
emitter Opcode.add_f64 = binary_register
emitter Opcode.add_f64_k = binary_constant
emitter Opcode.sub_i32 = binary_register
emitter Opcode.sub_i32_k = binary_constant
emitter Opcode.sub_i32_i = binary_immediate
emitter Opcode.sub_i64 = binary_register
emitter Opcode.sub_i64_k = binary_constant
emitter Opcode.sub_i64_i = binary_immediate
emitter Opcode.sub_f32 = binary_register
emitter Opcode.sub_f32_k = binary_constant
emitter Opcode.sub_f64 = binary_register
emitter Opcode.sub_f64_k = binary_constant
emitter Opcode.mul_i32 = binary_register
emitter Opcode.mul_i32_k = binary_constant
emitter Opcode.mul_i32_i = binary_immediate
emitter Opcode.mul_i64 = binary_register
emitter Opcode.mul_i64_k = binary_constant
emitter Opcode.mul_i64_i = binary_immediate
emitter Opcode.mul_f32 = binary_register
emitter Opcode.mul_f32_k = binary_constant
emitter Opcode.mul_f64 = binary_register
emitter Opcode.mul_f64_k = binary_constant
emitter Opcode.div_i32 = binary_register
emitter Opcode.div_i32_k = binary_constant
emitter Opcode.div_i32_i = binary_immediate
emitter Opcode.div_i64 = binary_register
emitter Opcode.div_i64_k = binary_constant
emitter Opcode.div_i64_i = binary_immediate
emitter Opcode.div_f32 = binary_register
emitter Opcode.div_f32_k = binary_constant
emitter Opcode.div_f64 = binary_register
emitter Opcode.div_f64_k = binary_constant
emitter Opcode.mod_i32 = binary_register
emitter Opcode.mod_i32_k = binary_constant
emitter Opcode.mod_i32_i = binary_immediate
emitter Opcode.mod_i64 = binary_register
emitter Opcode.mod_i64_k = binary_constant
emitter Opcode.mod_i64_i = binary_immediate
emitter Opcode.cmp_eq_i32 = binary_register
emitter Opcode.cmp_eq_i32_k = binary_constant
emitter Opcode.cmp_eq_i32_i = binary_immediate
emitter Opcode.cmp_eq_i64 = binary_register
emitter Opcode.cmp_eq_i64_k = binary_constant
emitter Opcode.cmp_eq_i64_i = binary_immediate
emitter Opcode.cmp_eq_f32 = binary_register
emitter Opcode.cmp_eq_f32_k = binary_constant
emitter Opcode.cmp_eq_f64 = binary_register
emitter Opcode.cmp_eq_f64_k = binary_constant
emitter Opcode.cmp_ne_i32 = binary_register
emitter Opcode.cmp_ne_i32_k = binary_constant
emitter Opcode.cmp_ne_i32_i = binary_immediate
emitter Opcode.cmp_ne_i64 = binary_register
emitter Opcode.cmp_ne_i64_k = binary_constant
emitter Opcode.cmp_ne_i64_i = binary_immediate
emitter Opcode.cmp_ne_f32 = binary_register
emitter Opcode.cmp_ne_f32_k = binary_constant
emitter Opcode.cmp_ne_f64 = binary_register
emitter Opcode.cmp_ne_f64_k = binary_constant
emitter Opcode.cmp_lt_i32 = binary_register
emitter Opcode.cmp_lt_i32_k = binary_constant
emitter Opcode.cmp_lt_i32_i = binary_immediate
emitter Opcode.cmp_lt_i64 = binary_register
emitter Opcode.cmp_lt_i64_k = binary_constant
emitter Opcode.cmp_lt_i64_i = binary_immediate
emitter Opcode.cmp_lt_f32 = binary_register
emitter Opcode.cmp_lt_f32_k = binary_constant
emitter Opcode.cmp_lt_f64 = binary_register
emitter Opcode.cmp_lt_f64_k = binary_constant
emitter Opcode.cmp_le_i32 = binary_register
emitter Opcode.cmp_le_i32_k = binary_constant
emitter Opcode.cmp_le_i32_i = binary_immediate
emitter Opcode.cmp_le_i64 = binary_register
emitter Opcode.cmp_le_i64_k = binary_constant
emitter Opcode.cmp_le_i64_i = binary_immediate
emitter Opcode.cmp_le_f32 = binary_register
emitter Opcode.cmp_le_f32_k = binary_constant
emitter Opcode.cmp_le_f64 = binary_register
emitter Opcode.cmp_le_f64_k = binary_constant
emitter Opcode.cmp_gt_i32 = binary_register
emitter Opcode.cmp_gt_i32_k = binary_constant
emitter Opcode.cmp_gt_i32_i = binary_immediate
emitter Opcode.cmp_gt_i64 = binary_register
emitter Opcode.cmp_gt_i64_k = binary_constant
emitter Opcode.cmp_gt_i64_i = binary_immediate
emitter Opcode.cmp_gt_f32 = binary_register
emitter Opcode.cmp_gt_f32_k = binary_constant
emitter Opcode.cmp_gt_f64 = binary_register
emitter Opcode.cmp_gt_f64_k = binary_constant
emitter Opcode.cmp_ge_i32 = binary_register
emitter Opcode.cmp_ge_i32_k = binary_constant
emitter Opcode.cmp_ge_i32_i = binary_immediate
emitter Opcode.cmp_ge_i64 = binary_register
emitter Opcode.cmp_ge_i64_k = binary_constant
emitter Opcode.cmp_ge_i64_i = binary_immediate
emitter Opcode.cmp_ge_f32 = binary_register
emitter Opcode.cmp_ge_f32_k = binary_constant
emitter Opcode.cmp_ge_f64 = binary_register
emitter Opcode.cmp_ge_f64_k = binary_constant

-- The arguments of an emitter.
abbrev pub Args : Emitter → Type 0
Args unary_register = ℕ × ℕ
Args unary_immediate = ℤ × ℕ
Args immediate_register = ℤ × ℕ
Args binary_register = ℕ × ℕ × ℕ
Args binary_constant = ℕ × ℕ × ℕ
Args binary_immediate = ℕ × ℤ × ℕ
Args call_i = ℕ × ℕ × ℕ
Args call_void_i = ℕ × ℕ
Args ret = ℕ
Args ret_void = Unit
Args lookup_k = ℕ × ℕ
Args alloca = ℕ
Args alloca_i = ℤ
Args special = ⊥

abbrev pub emit_with : (e : Emitter) → Opcode → Args e → Writer → Writer
emit_with unary_register op (src, dst) = emit_unary_register_instruction op src dst
emit_with unary_immediate op (src, dst) = emit_unary_immediate_instruction op src dst
emit_with immediate_register op (offset, reg) = emit_immediate_register_instruction op offset reg
emit_with binary_register op (lhs, rhs, dst) = emit_binary_register_instruction op lhs rhs dst
emit_with binary_constant op (lhs, rhs, dst) = emit_binary_constant_instruction op lhs rhs dst
emit_with binary_immediate op (lhs, rhs, dst) = emit_binary_immediate_instruction op lhs rhs dst
emit_with call_i op (function, base, dst) = emit_call_i function base dst
emit_with call_void_i op (function, base) = emit_call_void_i function base
emit_with ret op src = emit_ret src
emit_with ret_void op _ = emit_ret_void
emit_with lookup_k op (k, dst) = emit_lookup_k k dst
emit_with alloca op amount = emit_alloca amount
emit_with alloca_i op amount = emit_alloca_i amount
emit_with special op a = absurd a

-- `emit_##name` of the opcode.
unfoldable pub emit : (op : Opcode) → Args (emitter op) → Writer → Writer
emit op a = emit_with (emitter op) op a
