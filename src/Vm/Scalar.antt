-- ===== src/Vm/Scalar.antt =====
-- code/vm/include/vm/scalar.h and the conversions of code/vm/include/vm/vm.h: typed values, and the
-- 64-bit register contents that stand for them. A float or a double is its bit pattern.
use basedlang.Prelude.{ℕ, ◌%◌, ◌^◌, Bool, not, ◌==◌, if◌then◌else◌}
use basedlang.Prelude.Int.{ℤ}
use basedlang.Words.{wrap, signed}
use basedlang.Bytecode.Module.{ScalarType}

-- `struct Scalar`
pub data Scalar : Type 0 where
  int8 int16 int32 int64 : ℤ → Scalar
  float_ double_ : ℕ → Scalar
  bool_ : Bool → Scalar
  void_ : Scalar

-- `Scalar::type`
unfoldable pub type_of : Scalar → ScalarType
type_of (int8 z) = ScalarType.int8
type_of (int16 z) = ScalarType.int16
type_of (int32 z) = ScalarType.int32
type_of (int64 z) = ScalarType.int64
type_of (float_ b) = ScalarType.float_
type_of (double_ b) = ScalarType.double_
type_of (bool_ b) = ScalarType.bool_
type_of void_ = ScalarType.void_

-- The conversion of `get_register_value<T>`, `get_constant_value<T>` and `decode_return`.
unfoldable pub from_bits : ScalarType → ℕ → Scalar
from_bits ScalarType.int8 v = int8 (signed (2 ^ 7) (v % 2 ^ 8))
from_bits ScalarType.int16 v = int16 (signed (2 ^ 15) (v % 2 ^ 16))
from_bits ScalarType.int32 v = int32 (signed (2 ^ 31) (v % 2 ^ 32))
from_bits ScalarType.int64 v = int64 (signed (2 ^ 63) (v % 2 ^ 64))
from_bits ScalarType.float_ v = float_ (v % 2 ^ 32)
from_bits ScalarType.double_ v = double_ v
from_bits ScalarType.bool_ v = bool_ (not (v == 0))
from_bits ScalarType.void_ v = void_

-- The conversion of `set_register_value`; there is none for a void value.
unfoldable pub to_bits : Scalar → ℕ
to_bits (int8 z) = wrap (2 ^ 64) z
to_bits (int16 z) = wrap (2 ^ 64) z
to_bits (int32 z) = wrap (2 ^ 64) z
to_bits (int64 z) = wrap (2 ^ 64) z
to_bits (float_ b) = b
to_bits (double_ b) = b
to_bits (bool_ b) = if b then 1 else 0
to_bits void_ = 0
