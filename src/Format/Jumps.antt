-- ===== src/Format/Jumps.antt =====
-- Jumps: what `emit_jmp` and `emit_jnz` (code/bytecode/src/bytecode_writer.cpp) write for a target
-- takes the machine (code/vm/src/vm.cpp) to that target.
use basedlang.Prelude.{ℕ, ◌≡◌, refl, Bool, true, false, [], ◌∷◌, ◌∙◌, some, arith, if◌then◌else◌}
use basedlang.Prelude.Int.{ℤ, sub_ℕ}
use basedlang.Bytecode.Opcode.{Opcode}
use basedlang.Vm.Machine.{
  Vm, in_code, Outcome, >>=-ok, return, get_register_value, move_ip, jump_by,
}
use basedlang.Bytecode.Module.{int32}
use basedlang.Vm.Scalar.{Scalar}
use basedlang.Vm.Arithmetic.{Floats, is_zero}
use basedlang.Vm.Handler.{handler}
use basedlang.Vm.Run.{OperandWidth, jnz_i}
use basedlang.Vm.Dispatch.{step}
use basedlang.Format.Defs.{unsigned, signed, encoding}
use basedlang.Format.Decodes.{at, HoldsAt, AllFit}
use basedlang.Format.Steps.{step-encoding_in}

move_ip-sub : (q t : ℕ) → move_ip (in_code q) (sub_ℕ t q) ≡ some (in_code t)
unfolding move_ip
move_ip-sub q t = ground arith

pub jump_by-sub : (vm : Vm) (q t : ℕ) → jump_by (sub_ℕ t q) (at vm q) ≡ Outcome.ok tt (at vm t)
unfolding jump_by
jump_by-sub vm q t = rw (move_ip-sub q t, jump_by)

module _ (floats : Floats) (vm : Vm) (w : OperandWidth) (target p q : ℕ) where
  -- A jump held by the code with its displacement from the position behind it goes to the target.
  pub jmp_i-step :
      AllFit w (signed (sub_ℕ target q) ∷ [])
      → HoldsAt vm p (encoding w Opcode.jmp_i (signed (sub_ℕ target q) ∷ [])) q
      → step floats (at vm p) ≡ Outcome.ok false (at vm target)
  unfolding handler
  jmp_i-step f h =
      step-encoding_in floats vm Opcode.jmp_i (sub_ℕ target q) w p q f h
      ∙ >>=-ok (jump_by (sub_ℕ target q)) (λ _. return false) (at vm q) (at vm target) tt
          (jump_by-sub vm q target)

  -- A conditional jump held so goes to the target where the register is not zero, and on where it is.
  pub jnz_i-step :
      (src : ℕ) (z : ℤ)
      → AllFit w (unsigned src ∷ signed (sub_ℕ target q) ∷ [])
      → HoldsAt vm p (encoding w Opcode.jnz_i (unsigned src ∷ signed (sub_ℕ target q) ∷ [])) q
      → get_register_value int32 src (at vm q) ≡ Outcome.ok (Scalar.int32 z) (at vm q)
      → step floats (at vm p) ≡ Outcome.ok false (at vm (if is_zero z then q else target))
  unfolding handler jnz_i
  jnz_i-step src z f h e =
      step-encoding_in floats vm Opcode.jnz_i (src, sub_ℕ target q) w p q f h
      ∙ >>=-ok (jnz_i src (sub_ℕ target q)) (λ _. return false) (at vm q) _ tt
          (>>=-ok (get_register_value int32 src) _ (at vm q) (at vm q) (Scalar.int32 z) e
            ∙ branch (is_zero z))
    where
      branch :
          (b : Bool)
          → (if b then return tt else jump_by (sub_ℕ target q)) (at vm q)
            ≡ Outcome.ok tt (at vm (if b then q else target))
      branch true = refl
      branch false = jump_by-sub vm q target
