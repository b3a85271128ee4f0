-- ===== src/Bytecode/Writer.antt =====
-- code/bytecode/src/bytecode_writer.cpp and the templates of bytecode_writer.h.
-- The writer's stream is the list of the bytes written to it. A `Register`, a `Constant` and a
-- `Function` are their std::uint16_t, an `Immediate` is its std::int16_t as a ℤ.
use basedlang.Prelude.{ℕ, ◌+◌, ◌/◌, ◌%◌, Bool, not, ◌||◌, List, [], ◌∷◌, ◌++◌, ltb, if◌then◌else◌}
use basedlang.Prelude.Int.{ℤ}
use basedlang.Words.{wrap, shr_8, in_range}
use basedlang.Bytecode.Opcode.{Opcode, to_byte}

pub record Writer : Type 0 where
  pub stream : List ℕ
  pub position : ℕ

-- What the emitters throw.
pub data EmitError : Type 0 where
  jmp_target_out_of_range jnz_target_out_of_range : EmitError

pub data Emit (A : Type 0) : Type 0 where
  ok : A → Emit A
  throw : EmitError → Emit A

-- A statement after another, in the order of the source.
infixl 3 ◌▹◌
abbrev pub ◌▹◌ : {A B : Type 0} → A → (A → B) → B
x ▹ f = f x

-- `is_wide` of a register, a constant or a function
unfoldable pub is_wide : ℕ → Bool
is_wide r = ltb 255 r

-- `is_wide` of an immediate
unfoldable pub is_wide_immediate : ℤ → Bool
is_wide_immediate i = not (in_range 128 i)

unfoldable pub write_byte : ℕ → Writer → Writer
write_byte b w = record { stream = w.stream ++ b ∷ []; position = w.position + 1 }

unfoldable pub emit_opcode : Opcode → Writer → Writer
unfolding write_byte
emit_opcode op w = write_byte (to_byte op) w

unfoldable pub write_narrow_register : ℕ → Writer → Writer
unfolding write_byte
write_narrow_register r w = write_byte (r % 256) w

unfoldable pub write_wide_register : ℕ → Writer → Writer
unfolding write_byte
write_wide_register r w = w ▹ write_byte (r % 256) ▹ write_byte (r / 256 % 256)

-- The two `write_byte` calls of a wide constant, function or immediate.
unfoldable pub write_wide_immediate : ℤ → Writer → Writer
unfolding write_byte
write_wide_immediate i w = w ▹ write_byte (wrap 256 i) ▹ write_byte (wrap 256 (shr_8 i))

-- `emit_opcode(Opcode::wide); emit_opcode(opcode);`
abbrev emit_wide_opcode : Opcode → Writer → Writer
emit_wide_opcode op w = w ▹ emit_opcode Opcode.wide ▹ emit_opcode op

unfoldable pub emit_unary_register_instruction : Opcode → ℕ → ℕ → Writer → Writer
unfolding is_wide emit_opcode write_narrow_register write_wide_register
emit_unary_register_instruction op src dst w =
    if is_wide src || is_wide dst
    then (w ▹ emit_wide_opcode op ▹ write_wide_register src ▹ write_wide_register dst)
    else (w ▹ emit_opcode op ▹ write_narrow_register src ▹ write_narrow_register dst)

unfoldable pub emit_unary_immediate_instruction : Opcode → ℤ → ℕ → Writer → Writer
unfolding is_wide is_wide_immediate emit_opcode write_narrow_register write_wide_register
    write_wide_immediate
emit_unary_immediate_instruction op src dst w =
    if is_wide dst || is_wide_immediate src
    then (w ▹ emit_wide_opcode op ▹ write_wide_immediate src ▹ write_wide_register dst)
    else (w ▹ emit_opcode op ▹ write_byte (wrap 256 src) ▹ write_narrow_register dst)

unfoldable pub emit_immediate_register_instruction : Opcode → ℤ → ℕ → Writer → Writer
unfolding is_wide is_wide_immediate emit_opcode write_narrow_register write_wide_register
    write_wide_immediate
emit_immediate_register_instruction op offset reg w =
    if is_wide_immediate offset || is_wide reg
    then (w ▹ emit_wide_opcode op ▹ write_wide_immediate offset ▹ write_wide_register reg)
    else (w ▹ emit_opcode op ▹ write_byte (wrap 256 offset) ▹ write_narrow_register reg)

unfoldable pub emit_binary_register_instruction : Opcode → ℕ → ℕ → ℕ → Writer → Writer
unfolding is_wide emit_opcode write_narrow_register write_wide_register
emit_binary_register_instruction op lhs rhs dst w =
    if is_wide dst || is_wide lhs || is_wide rhs
    then (w
        ▹ emit_wide_opcode op
        ▹ write_wide_register lhs
        ▹ write_wide_register rhs
        ▹ write_wide_register dst)
    else (w
        ▹ emit_opcode op
        ▹ write_narrow_register lhs
        ▹ write_narrow_register rhs
        ▹ write_narrow_register dst)

unfoldable pub emit_binary_constant_instruction : Opcode → ℕ → ℕ → ℕ → Writer → Writer
unfolding is_wide emit_opcode write_narrow_register write_wide_register
emit_binary_constant_instruction op lhs rhs dst w =
    if is_wide dst || is_wide lhs || is_wide rhs
    then (w
        ▹ emit_wide_opcode op
        ▹ write_wide_register lhs
        ▹ write_byte (rhs % 256)
        ▹ write_byte (rhs / 256 % 256)
        ▹ write_wide_register dst)
    else (w
        ▹ emit_opcode op
        ▹ write_narrow_register lhs
        ▹ write_byte (rhs % 256)
        ▹ write_narrow_register dst)

unfoldable pub emit_binary_immediate_instruction : Opcode → ℕ → ℤ → ℕ → Writer → Writer
unfolding is_wide is_wide_immediate emit_opcode write_narrow_register write_wide_register
    write_wide_immediate
emit_binary_immediate_instruction op lhs rhs dst w =
    if is_wide dst || is_wide lhs || is_wide_immediate rhs
    then (w
        ▹ emit_wide_opcode op
        ▹ write_wide_register lhs
        ▹ write_wide_immediate rhs
        ▹ write_wide_register dst)
    else (w
        ▹ emit_opcode op
        ▹ write_narrow_register lhs
        ▹ write_byte (wrap 256 rhs)
        ▹ write_narrow_register dst)
