-- ===== src/Vm/Handler.antt =====
-- The `switch` of `Virtual_machine::dispatch` and `wide_dispatch` (code/vm/src/vm.cpp): for each opcode
-- the template that runs it. The two functions have the same cases, each at its operand width.
use basedlang.Prelude.{ℕ, Bool, true, false}
use basedlang.Bytecode.Opcode.{Opcode}
use basedlang.Bytecode.Module.{ScalarType}
use basedlang.Vm.Arithmetic.{
  UnaryFn, sx_fn, neg_fn, BinaryFn, add_fn, sub_fn, mul_fn, div_fn, mod_fn, cmp_eq_fn, cmp_ne_fn,
  cmp_lt_fn, cmp_le_fn, cmp_gt_fn, cmp_ge_fn,
}

-- The `run_` templates with their arguments.
pub data Handler : Type 0 where
  jmp_i jnz_i ret ret_void lookup_k alloca alloca_i mov mov_i mov_sp_i : Handler
  call_i : Bool → Handler
  load store load_sp store_sp : ℕ → Handler
  unary : ScalarType → UnaryFn → Handler
  register_binary constant_binary immediate_binary : ScalarType → BinaryFn → Handler
  unimplemented : Handler

unfoldable pub handler : Opcode → Handler
handler Opcode.exit = unimplemented
handler Opcode.wide = unimplemented
handler Opcode.jmp_i = Handler.jmp_i
handler Opcode.jnz_i = Handler.jnz_i
handler Opcode.call_i = call_i true
handler Opcode.call_void_i = call_i false
handler Opcode.ret = Handler.ret
handler Opcode.ret_void = Handler.ret_void
handler Opcode.lookup_k = Handler.lookup_k
handler Opcode.alloca = Handler.alloca
handler Opcode.alloca_i = Handler.alloca_i
handler Opcode.mov = Handler.mov
handler Opcode.mov_i = Handler.mov_i
handler Opcode.mov_sp_i = Handler.mov_sp_i
handler Opcode.load_8 = load 1
handler Opcode.load_16 = load 2
handler Opcode.load_32 = load 4
handler Opcode.load_64 = load 8
handler Opcode.store_8 = store 1
handler Opcode.store_16 = store 2
handler Opcode.store_32 = store 4
handler Opcode.store_64 = store 8
handler Opcode.load_sp_8 = load_sp 1
handler Opcode.load_sp_16 = load_sp 2
handler Opcode.load_sp_32 = load_sp 4
handler Opcode.load_sp_64 = load_sp 8
handler Opcode.store_sp_8 = store_sp 1
handler Opcode.store_sp_16 = store_sp 2
handler Opcode.store_sp_32 = store_sp 4
handler Opcode.store_sp_64 = store_sp 8
handler Opcode.sx_8 = unary ScalarType.int8 sx_fn
handler Opcode.sx_16 = unary ScalarType.int16 sx_fn
handler Opcode.sx_32 = unary ScalarType.int32 sx_fn
handler Opcode.neg_i32 = unary ScalarType.int32 neg_fn
handler Opcode.neg_i64 = unary ScalarType.int64 neg_fn
handler Opcode.neg_f32 = unary ScalarType.float_ neg_fn
handler Opcode.neg_f64 = unary ScalarType.double_ neg_fn
handler Opcode.add_i32 = register_binary ScalarType.int32 add_fn
handler Opcode.add_i32_k = constant_binary ScalarType.int32 add_fn
handler Opcode.add_i32_i = immediate_binary ScalarType.int32 add_fn
handler Opcode.add_i64 = register_binary ScalarType.int64 add_fn
handler Opcode.add_i64_k = constant_binary ScalarType.int64 add_fn
handler Opcode.add_i64_i = immediate_binary ScalarType.int64 add_fn
handler Opcode.add_f32 = register_binary ScalarType.float_ add_fn
handler Opcode.add_f32_k = constant_binary ScalarType.float_ add_fn
handler Opcode.add_f64 = register_binary ScalarType.double_ add_fn
handler Opcode.add_f64_k = constant_binary ScalarType.double_ add_fn
handler Opcode.sub_i32 = register_binary ScalarType.int32 sub_fn
handler Opcode.sub_i32_k = constant_binary ScalarType.int32 sub_fn
handler Opcode.sub_i32_i = immediate_binary ScalarType.int32 sub_fn
handler Opcode.sub_i64 = register_binary ScalarType.int64 sub_fn
handler Opcode.sub_i64_k = constant_binary ScalarType.int64 sub_fn
handler Opcode.sub_i64_i = immediate_binary ScalarType.int64 sub_fn
handler Opcode.sub_f32 = register_binary ScalarType.float_ sub_fn
handler Opcode.sub_f32_k = constant_binary ScalarType.float_ sub_fn
handler Opcode.sub_f64 = register_binary ScalarType.double_ sub_fn
handler Opcode.sub_f64_k = constant_binary ScalarType.double_ sub_fn
handler Opcode.mul_i32 = register_binary ScalarType.int32 mul_fn
handler Opcode.mul_i32_k = constant_binary ScalarType.int32 mul_fn
handler Opcode.mul_i32_i = immediate_binary ScalarType.int32 mul_fn
handler Opcode.mul_i64 = register_binary ScalarType.int64 mul_fn
handler Opcode.mul_i64_k = constant_binary ScalarType.int64 mul_fn
handler Opcode.mul_i64_i = immediate_binary ScalarType.int64 mul_fn
handler Opcode.mul_f32 = register_binary ScalarType.float_ mul_fn
handler Opcode.mul_f32_k = constant_binary ScalarType.float_ mul_fn
handler Opcode.mul_f64 = register_binary ScalarType.double_ mul_fn
handler Opcode.mul_f64_k = constant_binary ScalarType.double_ mul_fn
handler Opcode.div_i32 = register_binary ScalarType.int32 div_fn
handler Opcode.div_i32_k = constant_binary ScalarType.int32 div_fn
handler Opcode.div_i32_i = immediate_binary ScalarType.int32 div_fn
handler Opcode.div_i64 = register_binary ScalarType.int64 div_fn
handler Opcode.div_i64_k = constant_binary ScalarType.int64 div_fn
handler Opcode.div_i64_i = immediate_binary ScalarType.int64 div_fn
handler Opcode.div_f32 = register_binary ScalarType.float_ div_fn
handler Opcode.div_f32_k = constant_binary ScalarType.float_ div_fn
handler Opcode.div_f64 = register_binary ScalarType.double_ div_fn
handler Opcode.div_f64_k = constant_binary ScalarType.double_ div_fn
handler Opcode.mod_i32 = register_binary ScalarType.int32 mod_fn
handler Opcode.mod_i32_k = constant_binary ScalarType.int32 mod_fn
handler Opcode.mod_i32_i = immediate_binary ScalarType.int32 mod_fn
handler Opcode.mod_i64 = register_binary ScalarType.int64 mod_fn
handler Opcode.mod_i64_k = constant_binary ScalarType.int64 mod_fn
handler Opcode.mod_i64_i = immediate_binary ScalarType.int64 mod_fn
handler Opcode.cmp_eq_i32 = register_binary ScalarType.int32 cmp_eq_fn
handler Opcode.cmp_eq_i32_k = constant_binary ScalarType.int32 cmp_eq_fn
handler Opcode.cmp_eq_i32_i = immediate_binary ScalarType.int32 cmp_eq_fn
handler Opcode.cmp_eq_i64 = register_binary ScalarType.int64 cmp_eq_fn
handler Opcode.cmp_eq_i64_k = constant_binary ScalarType.int64 cmp_eq_fn
handler Opcode.cmp_eq_i64_i = immediate_binary ScalarType.int64 cmp_eq_fn
handler Opcode.cmp_eq_f32 = register_binary ScalarType.float_ cmp_eq_fn
handler Opcode.cmp_eq_f32_k = constant_binary ScalarType.float_ cmp_eq_fn
handler Opcode.cmp_eq_f64 = register_binary ScalarType.double_ cmp_eq_fn
handler Opcode.cmp_eq_f64_k = constant_binary ScalarType.double_ cmp_eq_fn
handler Opcode.cmp_ne_i32 = register_binary ScalarType.int32 cmp_ne_fn
handler Opcode.cmp_ne_i32_k = constant_binary ScalarType.int32 cmp_ne_fn
handler Opcode.cmp_ne_i32_i = immediate_binary ScalarType.int32 cmp_ne_fn
handler Opcode.cmp_ne_i64 = register_binary ScalarType.int64 cmp_ne_fn
handler Opcode.cmp_ne_i64_k = constant_binary ScalarType.int64 cmp_ne_fn
handler Opcode.cmp_ne_i64_i = immediate_binary ScalarType.int64 cmp_ne_fn
handler Opcode.cmp_ne_f32 = register_binary ScalarType.float_ cmp_ne_fn
handler Opcode.cmp_ne_f32_k = constant_binary ScalarType.float_ cmp_ne_fn
handler Opcode.cmp_ne_f64 = register_binary ScalarType.double_ cmp_ne_fn
handler Opcode.cmp_ne_f64_k = constant_binary ScalarType.double_ cmp_ne_fn
handler Opcode.cmp_lt_i32 = register_binary ScalarType.int32 cmp_lt_fn
handler Opcode.cmp_lt_i32_k = constant_binary ScalarType.int32 cmp_lt_fn
handler Opcode.cmp_lt_i32_i = immediate_binary ScalarType.int32 cmp_lt_fn
handler Opcode.cmp_lt_i64 = register_binary ScalarType.int64 cmp_lt_fn
handler Opcode.cmp_lt_i64_k = constant_binary ScalarType.int64 cmp_lt_fn
handler Opcode.cmp_lt_i64_i = immediate_binary ScalarType.int64 cmp_lt_fn
handler Opcode.cmp_lt_f32 = register_binary ScalarType.float_ cmp_lt_fn
handler Opcode.cmp_lt_f32_k = constant_binary ScalarType.float_ cmp_lt_fn
handler Opcode.cmp_lt_f64 = register_binary ScalarType.double_ cmp_lt_fn
handler Opcode.cmp_lt_f64_k = constant_binary ScalarType.double_ cmp_lt_fn
handler Opcode.cmp_le_i32 = register_binary ScalarType.int32 cmp_le_fn
handler Opcode.cmp_le_i32_k = constant_binary ScalarType.int32 cmp_le_fn
handler Opcode.cmp_le_i32_i = immediate_binary ScalarType.int32 cmp_le_fn
handler Opcode.cmp_le_i64 = register_binary ScalarType.int64 cmp_le_fn
handler Opcode.cmp_le_i64_k = constant_binary ScalarType.int64 cmp_le_fn
handler Opcode.cmp_le_i64_i = immediate_binary ScalarType.int64 cmp_le_fn
handler Opcode.cmp_le_f32 = register_binary ScalarType.float_ cmp_le_fn
handler Opcode.cmp_le_f32_k = constant_binary ScalarType.float_ cmp_le_fn
handler Opcode.cmp_le_f64 = register_binary ScalarType.double_ cmp_le_fn
handler Opcode.cmp_le_f64_k = constant_binary ScalarType.double_ cmp_le_fn
handler Opcode.cmp_gt_i32 = register_binary ScalarType.int32 cmp_gt_fn
handler Opcode.cmp_gt_i32_k = constant_binary ScalarType.int32 cmp_gt_fn
handler Opcode.cmp_gt_i32_i = immediate_binary ScalarType.int32 cmp_gt_fn
handler Opcode.cmp_gt_i64 = register_binary ScalarType.int64 cmp_gt_fn
handler Opcode.cmp_gt_i64_k = constant_binary ScalarType.int64 cmp_gt_fn
handler Opcode.cmp_gt_i64_i = immediate_binary ScalarType.int64 cmp_gt_fn
handler Opcode.cmp_gt_f32 = register_binary ScalarType.float_ cmp_gt_fn
handler Opcode.cmp_gt_f32_k = constant_binary ScalarType.float_ cmp_gt_fn
handler Opcode.cmp_gt_f64 = register_binary ScalarType.double_ cmp_gt_fn
handler Opcode.cmp_gt_f64_k = constant_binary ScalarType.double_ cmp_gt_fn
handler Opcode.cmp_ge_i32 = register_binary ScalarType.int32 cmp_ge_fn
handler Opcode.cmp_ge_i32_k = constant_binary ScalarType.int32 cmp_ge_fn
handler Opcode.cmp_ge_i32_i = immediate_binary ScalarType.int32 cmp_ge_fn
handler Opcode.cmp_ge_i64 = register_binary ScalarType.int64 cmp_ge_fn
handler Opcode.cmp_ge_i64_k = constant_binary ScalarType.int64 cmp_ge_fn
handler Opcode.cmp_ge_i64_i = immediate_binary ScalarType.int64 cmp_ge_fn
handler Opcode.cmp_ge_f32 = register_binary ScalarType.float_ cmp_ge_fn
handler Opcode.cmp_ge_f32_k = constant_binary ScalarType.float_ cmp_ge_fn
handler Opcode.cmp_ge_f64 = register_binary ScalarType.double_ cmp_ge_fn
handler Opcode.cmp_ge_f64_k = constant_binary ScalarType.double_ cmp_ge_fn
