-- ===== src/Bytecode/Emitter.antt =====
-- The public emitters of code/bytecode/src/bytecode_writer.cpp that have a body of their own: calls,
-- returns, jumps, constants and the stack.
use basedlang.Prelude.{ℕ, ◌+◌, ◌/◌, ◌%◌, not, ◌&&◌, ◌||◌, Option, none, some, if◌then◌else◌}
use basedlang.Prelude.Int.{ℤ, sub_ℕ}
use basedlang.Words.{wrap, in_range}
use basedlang.Bytecode.Opcode.{Opcode}
use basedlang.Bytecode.Writer.{
  Writer, Emit, ok, throw, jmp_target_out_of_range, jnz_target_out_of_range, ◌▹◌, is_wide,
  is_wide_immediate, write_byte, emit_opcode, write_narrow_register, write_wide_register,
  write_wide_immediate,
}

unfoldable pub emit_exit : Writer → Writer
unfolding emit_opcode
emit_exit w = emit_opcode Opcode.exit w

unfoldable pub emit_jmp : ℕ → Writer → Emit Writer
unfolding emit_opcode write_byte write_wide_immediate
emit_jmp target w =
    let narrow_offset = sub_ℕ target (w.position + 2) in
    let wide_offset = sub_ℕ target (w.position + 4) in
    if in_range 128 narrow_offset
    then ok (w ▹ emit_opcode Opcode.jmp_i ▹ write_byte (wrap 256 narrow_offset))
    else if in_range 32768 wide_offset
    then ok
        (w ▹ emit_opcode Opcode.wide ▹ emit_opcode Opcode.jmp_i ▹ write_wide_immediate wide_offset)
    else throw jmp_target_out_of_range

unfoldable pub emit_call_i : ℕ → ℕ → ℕ → Writer → Writer
unfolding is_wide emit_opcode write_byte write_narrow_register write_wide_register
emit_call_i function base dst w =
    if is_wide function || is_wide base || is_wide dst
    then (w
        ▹ emit_opcode Opcode.wide
        ▹ emit_opcode Opcode.call_i
        ▹ write_byte (function % 256)
        ▹ write_byte (function / 256 % 256)
        ▹ write_wide_register base
        ▹ write_wide_register dst)
    else (w
        ▹ emit_opcode Opcode.call_i
        ▹ write_byte (function % 256)
        ▹ write_narrow_register base
        ▹ write_narrow_register dst)

unfoldable pub emit_call_void_i : ℕ → ℕ → Writer → Writer
unfolding is_wide emit_opcode write_byte write_narrow_register write_wide_register
emit_call_void_i function base w =
    if is_wide function || is_wide base
    then (w
        ▹ emit_opcode Opcode.wide
        ▹ emit_opcode Opcode.call_void_i
        ▹ write_byte (function % 256)
        ▹ write_byte (function / 256 % 256)
        ▹ write_wide_register base)
    else (w
        ▹ emit_opcode Opcode.call_void_i
        ▹ write_byte (function % 256)
        ▹ write_narrow_register base)

unfoldable pub emit_ret : ℕ → Writer → Writer
unfolding is_wide emit_opcode write_narrow_register write_wide_register
emit_ret src w =
    if is_wide src
    then (w ▹ emit_opcode Opcode.wide ▹ emit_opcode Opcode.ret ▹ write_wide_register src)
    else (w ▹ emit_opcode Opcode.ret ▹ write_narrow_register src)

unfoldable pub emit_ret_void : Writer → Writer
unfolding emit_opcode
emit_ret_void w = emit_opcode Opcode.ret_void w

unfoldable pub emit_jnz : ℕ → ℕ → Writer → Emit Writer
unfolding is_wide emit_opcode write_byte write_narrow_register write_wide_register
    write_wide_immediate
emit_jnz src target w =
    let narrow_offset = sub_ℕ target (w.position + 3) in
    let wide_offset = sub_ℕ target (w.position + 6) in
    if not (is_wide src) && in_range 128 narrow_offset
    then ok (
        w
        ▹ emit_opcode Opcode.jnz_i
        ▹ write_narrow_register src
        ▹ write_byte (wrap 256 narrow_offset))
    else if in_range 32768 wide_offset
    then ok (
        w
        ▹ emit_opcode Opcode.wide
        ▹ emit_opcode Opcode.jnz_i
        ▹ write_wide_register src
        ▹ write_wide_immediate wide_offset)
    else throw jnz_target_out_of_range

unfoldable pub emit_lookup_k : ℕ → ℕ → Writer → Writer
unfolding is_wide emit_opcode write_byte write_narrow_register write_wide_register
emit_lookup_k k dst w =
    if is_wide dst || is_wide k
    then (w
        ▹ emit_opcode Opcode.wide
        ▹ emit_opcode Opcode.lookup_k
        ▹ write_byte (k % 256)
        ▹ write_byte (k / 256 % 256)
        ▹ write_wide_register dst)
    else (w ▹ emit_opcode Opcode.lookup_k ▹ write_byte (k % 256) ▹ write_narrow_register dst)

unfoldable pub emit_alloca_i : ℤ → Writer → Writer
unfolding is_wide_immediate emit_opcode write_byte write_wide_immediate
emit_alloca_i amount w =
    if is_wide_immediate amount
    then (w ▹ emit_opcode Opcode.wide ▹ emit_opcode Opcode.alloca_i ▹ write_wide_immediate amount)
    else (w ▹ emit_opcode Opcode.alloca_i ▹ write_byte (wrap 256 amount))

unfoldable pub emit_alloca : ℕ → Writer → Writer
unfolding is_wide emit_opcode write_narrow_register write_wide_register
emit_alloca amount w =
    if is_wide amount
    then (w ▹ emit_opcode Opcode.wide ▹ emit_opcode Opcode.alloca ▹ write_wide_register amount)
    else (w ▹ emit_opcode Opcode.alloca ▹ write_narrow_register amount)

-- The templates of bytecode_writer.h: the provider has answered with the target, or with none where
-- the label is not yet placed, and the two bytes of the offset are left to be patched.
unfoldable pub emit_jmp_to : Option ℕ → Writer → Emit Writer
unfolding emit_jmp emit_opcode write_byte
emit_jmp_to (some target) w = emit_jmp target w
emit_jmp_to none w =
    ok (w ▹ emit_opcode Opcode.wide ▹ emit_opcode Opcode.jmp_i ▹ write_byte 0 ▹ write_byte 0)

unfoldable pub emit_jnz_to : ℕ → Option ℕ → Writer → Emit Writer
unfolding emit_jnz emit_opcode write_byte write_wide_register
emit_jnz_to src (some target) w = emit_jnz src target w
emit_jnz_to src none w = ok (
    w
    ▹ emit_opcode Opcode.wide
    ▹ emit_opcode Opcode.jnz_i
    ▹ write_wide_register src
    ▹ write_byte 0
    ▹ write_byte 0)
