-- ===== src/Vm/Values.antt =====
-- Typed values in registers (code/vm/include/vm/scalar.h and vm.h).
use basedlang.Prelude.{
  ℕ, ◌+◌, ◌^◌, ◌<◌, ◌≡◌, refl, ap, ◌∙◌, true, false, length, set, arith, lt→ltb, get_elem?-set_self,
}
use basedlang.Prelude.Int.{pos, negsuc}
use basedlang.Words.{in_range}
use basedlang.Vm.Scalar.{
  Scalar, int8, int16, int32, int64, float_, double_, bool_, void_, type_of, from_bits, to_bits,
}
use basedlang.Vm.Machine.{Vm, Outcome, ◌>>◌, >>=-ok, get_register_value, set_register_value}
use basedlang.Vm.Registers.{get_register_value_lem}

-- The value is one of its C++ type.
abbrev pub IsInType : Scalar → Type 0
IsInType (int8 z) = in_range (2 ^ 7) z ≡ true
IsInType (int16 z) = in_range (2 ^ 15) z ≡ true
IsInType (int32 z) = in_range (2 ^ 31) z ≡ true
IsInType (int64 z) = in_range (2 ^ 63) z ≡ true
IsInType (float_ b) = b < 2 ^ 32
IsInType (double_ b) = b < 2 ^ 64
IsInType (bool_ b) = Unit
IsInType void_ = Unit

-- A value put into 64 bits and read back at its type is itself.
pub from_bits-to_bits : (s : Scalar) → IsInType s → from_bits (type_of s) (to_bits s) ≡ s
unfolding from_bits to_bits type_of
from_bits-to_bits (int8 (pos n)) h = ground arith
from_bits-to_bits (int8 (negsuc n)) h = ground arith
from_bits-to_bits (int16 (pos n)) h = ground arith
from_bits-to_bits (int16 (negsuc n)) h = ground arith
from_bits-to_bits (int32 (pos n)) h = ground arith
from_bits-to_bits (int32 (negsuc n)) h = ground arith
from_bits-to_bits (int64 (pos n)) h = ground arith
from_bits-to_bits (int64 (negsuc n)) h = ground arith
from_bits-to_bits (float_ b) h = ground arith
from_bits-to_bits (double_ b) h = refl
from_bits-to_bits (bool_ true) h = refl
from_bits-to_bits (bool_ false) h = refl
from_bits-to_bits void_ h = refl

-- A value written to a register of the window and read back at its type is itself, and the write
-- changes that register alone.
pub set-get_register_value :
    (vm : Vm) (r : ℕ) (s : Scalar)
    → IsInType s
    → vm.base_register + r < length (vm.registers)
    → (set_register_value r s >> get_register_value (type_of s) r) vm
      ≡ Outcome.ok s
          (record vm { registers = set (vm.registers) (vm.base_register + r) (to_bits s) })
unfolding set_register_value
set-get_register_value vm r s h lt =
    >>=-ok (set_register_value r s) (λ _. get_register_value (type_of s) r) vm after tt
      (rw (lt→ltb (vm.base_register + r) (length (vm.registers)) lt))
    ∙ get_register_value_lem after r (to_bits s)
        (get_elem?-set_self (vm.registers) (vm.base_register + r) (to_bits s) lt) (type_of s)
    ∙ ap (λ v. Outcome.ok v after) (from_bits-to_bits s h)
  where
    after : Vm
    after = record vm { registers = set (vm.registers) (vm.base_register + r) (to_bits s) }
