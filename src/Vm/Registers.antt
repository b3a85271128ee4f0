-- ===== src/Vm/Registers.antt =====
-- Reading and writing the registers of a window (code/vm/include/vm/vm.h).
use basedlang.Prelude.{ℕ, ◌+◌, ◌≡◌, ap, some, get_elem?}
use basedlang.Bytecode.Module.{ScalarType}
use basedlang.Vm.Scalar.{from_bits}
use basedlang.Vm.Machine.{Vm, ok, >>=-ok, return, defined, read_register, get_register_value}

module _ (vm : Vm) (r v : ℕ) (held : get_elem? (vm.registers) (vm.base_register + r) ≡ some v) where
  pub read_register_lem : read_register r vm ≡ ok v vm
  unfolding read_register
  read_register_lem = ap (λ o. defined o vm) held

  pub get_register_value_lem : (t : ScalarType) → get_register_value t r vm ≡ ok (from_bits t v) vm
  unfolding get_register_value
  get_register_value_lem t =
      >>=-ok (read_register r) (λ x. return (from_bits t x)) vm vm v read_register_lem
