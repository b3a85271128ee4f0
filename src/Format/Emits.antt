-- ===== src/Format/Emits.antt =====
-- What each emitter writes (code/bytecode/src/bytecode_writer.cpp): the narrowest encoding.
use basedlang.Prelude.{
  ℕ, ◌+◌, ◌≡◌, refl, Bool, true, false, List, [], ◌∷◌, ◌++◌, length, append_assoc, subst,
  if◌then◌else◌, ◌||◌, arith,
}
use basedlang.Prelude.Int.{ℤ}
use basedlang.Bytecode.Opcode.{Opcode}
use basedlang.Bytecode.Writer.{
  Writer, is_wide, is_wide_immediate, emit_unary_register_instruction,
  emit_unary_immediate_instruction, emit_immediate_register_instruction,
  emit_binary_register_instruction, emit_binary_constant_instruction,
  emit_binary_immediate_instruction,
}
use basedlang.Bytecode.Emitter.{
  emit_exit, emit_call_i, emit_call_void_i, emit_ret, emit_ret_void, emit_lookup_k, emit_alloca_i,
  emit_alloca,
}
use basedlang.Vm.Run.{narrow, wide}
use basedlang.Format.Defs.{Operand, unsigned, signed, encoding, any_wide, width_if, width_of}

-- The writer after so many more bytes.
abbrev pub append : List ℕ → Writer → Writer
append bs w = record { stream = w.stream ++ bs; position = w.position + length bs }

-- The writer has appended bytes.
abbrev pub Appended : Writer → Writer → Type 0
Appended w w' = (bs : List ℕ) × (w' ≡ append bs w)

pub wrote : {w w' : Writer} → w.stream ≡ w'.stream → w.position ≡ w'.position → w ≡ w'
wrote s p = λ i. record { stream = s i; position = p i }

-- An emitter's test agrees with `any_wide`, and each of its branches writes its form.
by_width :
    (test : Bool) (op : Opcode) (os : List Operand) (w x y : Writer)
    → test ≡ any_wide os
    → x ≡ append (encoding wide op os) w
    → y ≡ append (encoding narrow op os) w
    → (if test then x else y) ≡ append (encoding (width_of os) op os) w
by_width true op os w x y e px py = subst (λ b. x ≡ append (encoding (width_if b) op os) w) e px
by_width false op os w x y e px py = subst (λ b. y ≡ append (encoding (width_if b) op os) w) e py

-- The emitter writes the narrowest encoding of the opcode and the operands.
abbrev pub Encodes : (Writer → Writer) → Opcode → List Operand → Type 0
Encodes emit op os = (w : Writer) → emit w ≡ append (encoding (width_of os) op os) w

pub emit_unary_register_instruction_lem :
    (op : Opcode) (src : ℕ) (dst : ℕ)
    → Encodes (emit_unary_register_instruction op src dst) op (unsigned src ∷ unsigned dst ∷ [])
unfolding emit_unary_register_instruction
emit_unary_register_instruction_lem op src dst w =
    by_width (is_wide src || is_wide dst) op (unsigned src ∷ unsigned dst ∷ []) w _ _ (ground arith)
      (wrote (simp append_assoc) (omega arith)) (wrote (simp append_assoc) (omega arith))

pub emit_unary_immediate_instruction_lem :
    (op : Opcode) (src : ℤ) (dst : ℕ)
    → Encodes (emit_unary_immediate_instruction op src dst) op (signed src ∷ unsigned dst ∷ [])
unfolding emit_unary_immediate_instruction
emit_unary_immediate_instruction_lem op src dst w =
    by_width (is_wide dst || is_wide_immediate src) op (signed src ∷ unsigned dst ∷ []) w _ _
      (ground arith) (wrote (simp append_assoc) (omega arith))
      (wrote (simp append_assoc) (omega arith))

pub emit_immediate_register_instruction_lem :
    (op : Opcode) (offset : ℤ) (reg : ℕ)
    → Encodes
        (emit_immediate_register_instruction op offset reg)
        op
        (signed offset ∷ unsigned reg ∷ [])
unfolding emit_immediate_register_instruction
emit_immediate_register_instruction_lem op offset reg w =
    by_width (is_wide_immediate offset || is_wide reg) op (signed offset ∷ unsigned reg ∷ []) w _ _
      (ground arith) (wrote (simp append_assoc) (omega arith))
      (wrote (simp append_assoc) (omega arith))

pub emit_binary_register_instruction_lem :
    (op : Opcode) (lhs : ℕ) (rhs : ℕ) (dst : ℕ)
    → Encodes
        (emit_binary_register_instruction op lhs rhs dst)
        op
        (unsigned lhs ∷ unsigned rhs ∷ unsigned dst ∷ [])
unfolding emit_binary_register_instruction
emit_binary_register_instruction_lem op lhs rhs dst w =
    by_width (is_wide dst || is_wide lhs || is_wide rhs) op
      (unsigned lhs ∷ unsigned rhs ∷ unsigned dst ∷ []) w _ _ (ground arith)
      (wrote (simp append_assoc) (omega arith)) (wrote (simp append_assoc) (omega arith))

pub emit_binary_constant_instruction_lem :
    (op : Opcode) (lhs : ℕ) (rhs : ℕ) (dst : ℕ)
    → Encodes
        (emit_binary_constant_instruction op lhs rhs dst)
        op
        (unsigned lhs ∷ unsigned rhs ∷ unsigned dst ∷ [])
unfolding emit_binary_constant_instruction
emit_binary_constant_instruction_lem op lhs rhs dst w =
    by_width (is_wide dst || is_wide lhs || is_wide rhs) op
      (unsigned lhs ∷ unsigned rhs ∷ unsigned dst ∷ []) w _ _ (ground arith)
      (wrote (simp append_assoc) (omega arith)) (wrote (simp append_assoc) (omega arith))

pub emit_binary_immediate_instruction_lem :
    (op : Opcode) (lhs : ℕ) (rhs : ℤ) (dst : ℕ)
    → Encodes
        (emit_binary_immediate_instruction op lhs rhs dst)
        op
        (unsigned lhs ∷ signed rhs ∷ unsigned dst ∷ [])
unfolding emit_binary_immediate_instruction
emit_binary_immediate_instruction_lem op lhs rhs dst w =
    by_width (is_wide dst || is_wide lhs || is_wide_immediate rhs) op
      (unsigned lhs ∷ signed rhs ∷ unsigned dst ∷ []) w _ _ (ground arith)
      (wrote (simp append_assoc) (omega arith)) (wrote (simp append_assoc) (omega arith))

pub emit_call_i_lem :
    (function : ℕ) (base : ℕ) (dst : ℕ)
    → Encodes
        (emit_call_i function base dst)
        Opcode.call_i
        (unsigned function ∷ unsigned base ∷ unsigned dst ∷ [])
unfolding emit_call_i
emit_call_i_lem function base dst w =
    by_width (is_wide function || is_wide base || is_wide dst) Opcode.call_i
      (unsigned function ∷ unsigned base ∷ unsigned dst ∷ []) w _ _ (ground arith)
      (wrote (simp append_assoc) (omega arith)) (wrote (simp append_assoc) (omega arith))

pub emit_call_void_i_lem :
    (function : ℕ) (base : ℕ)
    → Encodes
        (emit_call_void_i function base)
        Opcode.call_void_i
        (unsigned function ∷ unsigned base ∷ [])
unfolding emit_call_void_i
emit_call_void_i_lem function base w =
    by_width (is_wide function || is_wide base) Opcode.call_void_i
      (unsigned function ∷ unsigned base ∷ []) w _ _ (ground arith)
      (wrote (simp append_assoc) (omega arith)) (wrote (simp append_assoc) (omega arith))

pub emit_ret_lem : (src : ℕ) → Encodes (emit_ret src) Opcode.ret (unsigned src ∷ [])
unfolding emit_ret
emit_ret_lem src w =
    by_width (is_wide src) Opcode.ret (unsigned src ∷ []) w _ _ (ground arith)
      (wrote (simp append_assoc) (omega arith)) (wrote (simp append_assoc) (omega arith))

pub emit_lookup_k_lem :
    (k : ℕ) (dst : ℕ)
    → Encodes (emit_lookup_k k dst) Opcode.lookup_k (unsigned k ∷ unsigned dst ∷ [])
unfolding emit_lookup_k
emit_lookup_k_lem k dst w =
    by_width (is_wide dst || is_wide k) Opcode.lookup_k (unsigned k ∷ unsigned dst ∷ []) w _ _
      (ground arith) (wrote (simp append_assoc) (omega arith))
      (wrote (simp append_assoc) (omega arith))

pub emit_alloca_i_lem :
    (amount : ℤ) → Encodes (emit_alloca_i amount) Opcode.alloca_i (signed amount ∷ [])
unfolding emit_alloca_i
emit_alloca_i_lem amount w =
    by_width (is_wide_immediate amount) Opcode.alloca_i (signed amount ∷ []) w _ _ (ground arith)
      (wrote (simp append_assoc) (omega arith)) (wrote (simp append_assoc) (omega arith))

pub emit_alloca_lem :
    (amount : ℕ) → Encodes (emit_alloca amount) Opcode.alloca (unsigned amount ∷ [])
unfolding emit_alloca
emit_alloca_lem amount w =
    by_width (is_wide amount) Opcode.alloca (unsigned amount ∷ []) w _ _ (ground arith)
      (wrote (simp append_assoc) (omega arith)) (wrote (simp append_assoc) (omega arith))

pub emit_ret_void_lem : Encodes emit_ret_void Opcode.ret_void []
unfolding emit_ret_void
emit_ret_void_lem w = wrote refl refl

pub emit_exit_lem : Encodes emit_exit Opcode.exit []
unfolding emit_exit
emit_exit_lem w = wrote refl refl
