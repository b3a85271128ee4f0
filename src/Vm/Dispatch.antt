-- ===== src/Vm/Dispatch.antt =====
-- `Virtual_machine::dispatch`, `wide_dispatch` and `run` (code/vm/src/vm.cpp).
use basedlang.Prelude.{ℕ, zero, suc, Bool, true, false, Option, some, none}
use basedlang.Bytecode.Opcode.{Opcode, from_byte}
use basedlang.Vm.Machine.{
  out_of_fuel, unimplemented_opcode, unimplemented_wide_opcode, M, ◌>>=◌, ◌>>◌, return, fail,
  next_byte, jump_by,
}
use basedlang.Vm.Arithmetic.{Floats}
use basedlang.Vm.Handler.{Handler, handler}
use basedlang.Vm.Run.{OperandWidth, narrow, wide, decode_register, decode_immediate}
use basedlang.Vm.Run as Run

module _ (floats : Floats) where
  -- The templates: the operands are decoded in the order of the code, then used.
  unfoldable pub run_handler : OperandWidth → Handler → M (Unit {0})
  unfolding decode_register decode_immediate
  run_handler w Handler.jmp_i = do offset ← decode_immediate w; jump_by offset
  run_handler w Handler.jnz_i = do
    src ← decode_register w
    offset ← decode_immediate w
    Run.jnz_i src offset
  run_handler w Handler.ret = do src ← decode_register w; Run.ret src
  run_handler w Handler.ret_void = Run.ret_void
  run_handler w Handler.lookup_k = do
    k ← decode_register w
    dst ← decode_register w
    Run.lookup_k k dst
  run_handler w Handler.alloca = do amount ← decode_register w; Run.alloca amount
  run_handler w Handler.alloca_i = do amount ← decode_immediate w; Run.lower_stack amount
  run_handler w Handler.mov = do src ← decode_register w; dst ← decode_register w; Run.mov src dst
  run_handler w Handler.mov_i = do
    src ← decode_immediate w
    dst ← decode_register w
    Run.mov_i src dst
  run_handler w Handler.mov_sp_i = do
    offset ← decode_immediate w
    dst ← decode_register w
    Run.mov_sp_i offset dst
  run_handler w (Handler.call_i true) = do
    function ← decode_register w
    base ← decode_register w
    dst ← decode_register w
    Run.call_i_returning function base dst
  run_handler w (Handler.call_i false) = do
    function ← decode_register w
    base ← decode_register w
    Run.call_i function base none
  run_handler w (Handler.load n) = do
    base ← decode_register w
    offset ← decode_immediate w
    dst ← decode_register w
    Run.load n base offset dst
  run_handler w (Handler.store n) = do
    base ← decode_register w
    offset ← decode_immediate w
    src ← decode_register w
    Run.store n base offset src
  run_handler w (Handler.load_sp n) = do
    offset ← decode_immediate w
    dst ← decode_register w
    Run.load_sp n offset dst
  run_handler w (Handler.store_sp n) = do
    offset ← decode_immediate w
    src ← decode_register w
    Run.store_sp n offset src
  run_handler w (Handler.unary t fn) = do
    src ← decode_register w
    dst ← decode_register w
    Run.register_unary floats t fn src dst
  run_handler w (Handler.register_binary t fn) = do
    lhs ← decode_register w
    rhs ← decode_register w
    dst ← decode_register w
    Run.register_binary floats t fn lhs rhs dst
  run_handler w (Handler.constant_binary t fn) = do
    lhs ← decode_register w
    rhs ← decode_register w
    dst ← decode_register w
    Run.constant_binary floats t fn lhs rhs dst
  run_handler w (Handler.immediate_binary t fn) = do
    lhs ← decode_register w
    rhs ← decode_immediate w
    dst ← decode_register w
    Run.immediate_binary floats t fn lhs rhs dst
  run_handler narrow Handler.unimplemented = fail unimplemented_opcode
  run_handler wide Handler.unimplemented = fail unimplemented_wide_opcode

  -- `wide_dispatch` of a byte; one with no enumerator falls to `default`.
  unfoldable pub wide_dispatch : Option Opcode → M (Unit {0})
  unfolding run_handler handler
  wide_dispatch none = fail unimplemented_wide_opcode
  wide_dispatch (some op) = run_handler wide (handler op)

  unfoldable pub dispatch : Option Opcode → M (Unit {0})
  unfolding run_handler handler wide_dispatch next_byte from_byte
  dispatch none = fail unimplemented_opcode
  dispatch (some Opcode.wide) = do b ← next_byte; wide_dispatch (from_byte b)
  dispatch (some op) = run_handler narrow (handler op)

  -- One round of the loop of `run`, once the opcode is fetched: `true` when it is `exit`.
  unfoldable pub round : Option Opcode → M Bool
  unfolding dispatch
  round (some Opcode.exit) = return true
  round (some op) = do dispatch (some op); return false
  round none = do dispatch none; return false

  unfoldable pub step : M Bool
  unfolding round next_byte from_byte
  step = do b ← next_byte; round (from_byte b)

  -- `run`, for at most so many instructions.
  unfoldable pub run : ℕ → M (Unit {0})
  unfolding step
  run zero vm = out_of_fuel
  run (suc fuel) vm = (step >>= (λ done. elim done [ true ↦ return tt | false ↦ run fuel ])) vm
