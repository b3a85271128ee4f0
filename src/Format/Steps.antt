-- ===== src/Format/Steps.antt =====
-- The machine's step over code that holds an encoded instruction (code/vm/src/vm.cpp).
use basedlang.Prelude.{
  ℕ, suc, subst, ◌≡◌, refl, Bool, true, false, none, List, [], ◌∷◌, ap, ◌∙◌, some,
}
use basedlang.Bytecode.Opcode.{Opcode, to_byte, from_byte-to_byte}
use basedlang.Vm.Machine.{
  Vm, Outcome, ok, throw, undefined, out_of_fuel, M, ◌>>◌, >>=-ok, return, next_byte,
}
use basedlang.Vm.Arithmetic.{Floats}
use basedlang.Vm.Handler.{Handler, handler}
use basedlang.Vm.Run.{OperandWidth, narrow, wide, decode_register, decode_immediate}
use basedlang.Vm.Run as Run
use basedlang.Vm.Dispatch.{run_handler, wide_dispatch, dispatch, round, step}
use basedlang.Format.Defs.{signed, operands_bytes, encoding, width_of, AreWords}
use basedlang.Format.Decodes.{
  AllFit, at, HoldsAt, next_byte-at, decode_register-then, width_of_fits,
}
use basedlang.Format.Instructions.{Operands, operands, perform}
use basedlang.Format.Shapes.{one, one_immediate, two, signed_one, three, based_three}

module _ (floats : Floats) where
  -- A template finds its operands where they are encoded, and goes on behind them.
  run_handler-perform :
      (vm : Vm) (w : OperandWidth) (h : Handler) (os : Operands h) (p q : ℕ)
      → AllFit w (operands h os)
      → HoldsAt vm p (operands_bytes w (operands h os)) q
      → run_handler floats w h (at vm p) ≡ perform floats h os (at vm q)
  unfolding run_handler
  run_handler-perform vm w Handler.jmp_i d p q f h = one_immediate vm w d p q _ f h
  run_handler-perform vm w Handler.jnz_i (r, d) p q f h =
      decode_register-then vm (operands_bytes w (signed d ∷ [])) p q _ w r _ (f.0) h
        λ p₁ h₁. one_immediate vm w d p₁ q (Run.jnz_i r) (f.1) h₁
  run_handler-perform vm w Handler.ret r p q f h = one vm w r p q _ f h
  run_handler-perform vm w Handler.ret_void _ p q f h = ap (λ x. Run.ret_void (at vm x)) h
  run_handler-perform vm w Handler.lookup_k os p q f h = two vm w os p q _ f h
  run_handler-perform vm w Handler.alloca r p q f h = one vm w r p q _ f h
  run_handler-perform vm w Handler.alloca_i z p q f h = one_immediate vm w z p q _ f h
  run_handler-perform vm w Handler.mov os p q f h = two vm w os p q _ f h
  run_handler-perform vm w Handler.mov_i os p q f h = signed_one vm w os p q _ f h
  run_handler-perform vm w Handler.mov_sp_i os p q f h = signed_one vm w os p q _ f h
  run_handler-perform vm w (Handler.call_i true) os p q f h = three vm w os p q _ f h
  run_handler-perform vm w (Handler.call_i false) os p q f h =
      two vm w os p q (λ a b. Run.call_i a b none) f h
  run_handler-perform vm w (Handler.load n) os p q f h = based_three vm w os p q (Run.load n) f h
  run_handler-perform vm w (Handler.store n) os p q f h = based_three vm w os p q (Run.store n) f h
  run_handler-perform vm w (Handler.load_sp n) os p q f h =
      signed_one vm w os p q (Run.load_sp n) f h
  run_handler-perform vm w (Handler.store_sp n) os p q f h =
      signed_one vm w os p q (Run.store_sp n) f h
  run_handler-perform vm w (Handler.unary t fn) os p q f h =
      two vm w os p q (Run.register_unary floats t fn) f h
  run_handler-perform vm w (Handler.register_binary t fn) os p q f h =
      three vm w os p q (Run.register_binary floats t fn) f h
  run_handler-perform vm w (Handler.constant_binary t fn) os p q f h =
      three vm w os p q (Run.constant_binary floats t fn) f h
  run_handler-perform vm w (Handler.immediate_binary t fn) os p q f h =
      based_three vm w os p q (Run.immediate_binary floats t fn) f h
  run_handler-perform vm w Handler.unimplemented os p q f h = absurd os

  continued : Outcome (Unit {0}) → Outcome Bool
  continued o = elim o [
    | ok a vm ↦ ok false vm
    | throw e vm ↦ throw e vm
    | undefined ↦ undefined
    | out_of_fuel ↦ out_of_fuel
  ]

  -- An opcode with a template is dispatched to it in the narrow form.
  dispatch-narrow :
      (op : Opcode)
      → Operands (handler op)
      → dispatch floats (some op) ≡ run_handler floats narrow (handler op)
  unfolding dispatch handler
  dispatch-narrow Opcode.exit os = absurd os
  dispatch-narrow Opcode.wide os = absurd os
  dispatch-narrow _ os = refl

  dispatch-wide :
      (vm : Vm) (op : Opcode) (p q : ℕ) (bs : List ℕ)
      → HoldsAt vm p (to_byte op ∷ bs) q
      → dispatch floats (some Opcode.wide) (at vm p)
        ≡ run_handler floats wide (handler op) (at vm (suc p))
  unfolding dispatch wide_dispatch
  dispatch-wide vm op p q bs h =
      >>=-ok next_byte _ (at vm p) _ _ (next_byte-at vm p (to_byte op) q bs h)
      ∙ ap (λ o. wide_dispatch floats o (at vm (suc p))) (from_byte-to_byte op)

  round-dispatch :
      (op : Opcode)
      → (op ≡ Opcode.exit → ⊥)
      → round floats (some op) ≡ (dispatch floats (some op) >> return false)
  unfolding round
  round-dispatch Opcode.exit ne = absurd (ne refl)
  round-dispatch _ ne = refl

  has_operands : (op : Opcode) → Operands (handler op) → op ≡ Opcode.exit → ⊥
  unfolding handler
  has_operands op os e = subst (λ o. Operands (handler o)) e os

  -- The step over an opcode's byte goes to `dispatch`.
  step-dispatch :
      (vm : Vm) (op : Opcode) (p q : ℕ) (bs : List ℕ)
      → (op ≡ Opcode.exit → ⊥)
      → HoldsAt vm p (to_byte op ∷ bs) q
      → step floats (at vm p) ≡ (dispatch floats (some op) >> return false) (at vm (suc p))
  unfolding step
  step-dispatch vm op p q bs ne h =
      >>=-ok next_byte _ (at vm p) _ _ (next_byte-at vm p (to_byte op) q bs h)
      ∙ ap (λ o. round floats o (at vm (suc p))) (from_byte-to_byte op)
      ∙ ap (λ m. m (at vm (suc p))) (round-dispatch op ne)

  continue :
      (m n : M (Unit {0})) (v w : Vm) → m v ≡ n w → (m >> return false) v ≡ (n >> return false) w
  unfolding continued
  continue m n v w e = ap continued e

  pub step-encoding_in :
      (vm : Vm) (op : Opcode) (os : Operands (handler op)) (w : OperandWidth) (p q : ℕ)
      → AllFit w (operands (handler op) os)
      → HoldsAt vm p (encoding w op (operands (handler op) os)) q
      → step floats (at vm p) ≡ (perform floats (handler op) os >> return false) (at vm q)
  step-encoding_in vm op os narrow p q f h =
      step-dispatch vm op p q (operands_bytes narrow (operands (handler op) os))
        (has_operands op os) h
      ∙ ap (λ m. (m >> return false) (at vm (suc p))) (dispatch-narrow op os)
      ∙ continue (run_handler floats narrow (handler op)) (perform floats (handler op) os)
          (at vm (suc p)) (at vm q)
          (run_handler-perform vm narrow (handler op) os (suc p) q f (h.1))
  step-encoding_in vm op os wide p q f h =
      step-dispatch vm Opcode.wide p q (to_byte op ∷ operands_bytes wide (operands (handler op) os))
        (λ e. cc) h
      ∙ continue (dispatch floats (some Opcode.wide)) (perform floats (handler op) os)
          (at vm (suc p)) (at vm q)
          (dispatch-wide vm op (suc p) q (operands_bytes wide (operands (handler op) os)) (h.1)
            ∙ run_handler-perform vm wide (handler op) os (suc (suc p)) q f (h.1.1))

  -- Where the code holds an instruction in the form that the writer chooses for its operands, one
  -- step of the machine does what the instruction does, from the position behind it.
  pub step-encoding :
      (vm : Vm) (op : Opcode) (os : Operands (handler op)) (p q : ℕ)
      → AreWords (operands (handler op) os)
      → HoldsAt vm p
          (encoding (width_of (operands (handler op) os)) op (operands (handler op) os))
          q
      → step floats (at vm p) ≡ (perform floats (handler op) os >> return false) (at vm q)
  step-encoding vm op os p q ws =
      step-encoding_in vm op os (width_of (operands (handler op) os)) p q
        (width_of_fits (operands (handler op) os) ws)
