-- ===== src/Format/Instructions.antt =====
-- An instruction apart from its encoding: its operands, and what it does with them once they are
-- decoded (the `run_` templates of code/vm/src/vm.cpp).
use basedlang.Prelude.{ℕ, true, false, none, List, [], ◌∷◌}
use basedlang.Prelude.Int.{ℤ}
use basedlang.Vm.Machine.{M, jump_by}
use basedlang.Vm.Arithmetic.{Floats}
use basedlang.Vm.Handler.{Handler}
use basedlang.Vm.Run.{OperandWidth, narrow, wide, decode_register, decode_immediate}
use basedlang.Vm.Run as Run
use basedlang.Format.Defs.{Operand, unsigned, signed}

-- The operands that the instruction of a handler has.
abbrev pub Operands : Handler → Type 0
Operands Handler.jmp_i = ℤ
Operands Handler.jnz_i = ℕ × ℤ
Operands Handler.ret = ℕ
Operands Handler.ret_void = Unit
Operands Handler.lookup_k = ℕ × ℕ
Operands Handler.alloca = ℕ
Operands Handler.alloca_i = ℤ
Operands Handler.mov = ℕ × ℕ
Operands Handler.mov_i = ℤ × ℕ
Operands Handler.mov_sp_i = ℤ × ℕ
Operands (Handler.call_i true) = ℕ × ℕ × ℕ
Operands (Handler.call_i false) = ℕ × ℕ
Operands (Handler.load n) = ℕ × ℤ × ℕ
Operands (Handler.store n) = ℕ × ℤ × ℕ
Operands (Handler.load_sp n) = ℤ × ℕ
Operands (Handler.store_sp n) = ℤ × ℕ
Operands (Handler.unary t fn) = ℕ × ℕ
Operands (Handler.register_binary t fn) = ℕ × ℕ × ℕ
Operands (Handler.constant_binary t fn) = ℕ × ℕ × ℕ
Operands (Handler.immediate_binary t fn) = ℕ × ℤ × ℕ
Operands Handler.unimplemented = ⊥

abbrev pub unsigned₂ : ℕ × ℕ → List Operand
unsigned₂ (a, b) = unsigned a ∷ unsigned b ∷ []

abbrev pub unsigned₃ : ℕ × ℕ × ℕ → List Operand
unsigned₃ (a, b, c) = unsigned a ∷ unsigned b ∷ unsigned c ∷ []

abbrev pub signed_unsigned : ℤ × ℕ → List Operand
signed_unsigned (a, b) = signed a ∷ unsigned b ∷ []

abbrev pub based : ℕ × ℤ × ℕ → List Operand
based (a, b, c) = unsigned a ∷ signed b ∷ unsigned c ∷ []

-- The operands in the order in which they are written and read.
abbrev pub operands : (h : Handler) → Operands h → List Operand
operands Handler.jmp_i d = signed d ∷ []
operands Handler.jnz_i (r, d) = unsigned r ∷ signed d ∷ []
operands Handler.ret r = unsigned r ∷ []
operands Handler.ret_void _ = []
operands Handler.lookup_k os = unsigned₂ os
operands Handler.alloca r = unsigned r ∷ []
operands Handler.alloca_i z = signed z ∷ []
operands Handler.mov os = unsigned₂ os
operands Handler.mov_i os = signed_unsigned os
operands Handler.mov_sp_i os = signed_unsigned os
operands (Handler.call_i true) os = unsigned₃ os
operands (Handler.call_i false) os = unsigned₂ os
operands (Handler.load n) os = based os
operands (Handler.store n) os = based os
operands (Handler.load_sp n) os = signed_unsigned os
operands (Handler.store_sp n) os = signed_unsigned os
operands (Handler.unary t fn) os = unsigned₂ os
operands (Handler.register_binary t fn) os = unsigned₃ os
operands (Handler.constant_binary t fn) os = unsigned₃ os
operands (Handler.immediate_binary t fn) os = based os
operands Handler.unimplemented os = []

module _ (floats : Floats) where
  -- What the instruction does, given its operands.
  abbrev pub perform : (h : Handler) → Operands h → M (Unit {0})
  perform Handler.jmp_i d = jump_by d
  perform Handler.jnz_i (r, d) = Run.jnz_i r d
  perform Handler.ret r = Run.ret r
  perform Handler.ret_void _ = Run.ret_void
  perform Handler.lookup_k (k, dst) = Run.lookup_k k dst
  perform Handler.alloca r = Run.alloca r
  perform Handler.alloca_i z = Run.lower_stack z
  perform Handler.mov (src, dst) = Run.mov src dst
  perform Handler.mov_i (src, dst) = Run.mov_i src dst
  perform Handler.mov_sp_i (z, dst) = Run.mov_sp_i z dst
  perform (Handler.call_i true) (f, base, dst) = Run.call_i_returning f base dst
  perform (Handler.call_i false) (f, base) = Run.call_i f base none
  perform (Handler.load n) (base, z, dst) = Run.load n base z dst
  perform (Handler.store n) (base, z, src) = Run.store n base z src
  perform (Handler.load_sp n) (z, dst) = Run.load_sp n z dst
  perform (Handler.store_sp n) (z, src) = Run.store_sp n z src
  perform (Handler.unary t fn) (src, dst) = Run.register_unary floats t fn src dst
  perform (Handler.register_binary t fn) (a, b, dst) = Run.register_binary floats t fn a b dst
  perform (Handler.constant_binary t fn) (a, k, dst) = Run.constant_binary floats t fn a k dst
  perform (Handler.immediate_binary t fn) (a, z, dst) = Run.immediate_binary floats t fn a z dst
  perform Handler.unimplemented os = absurd os
