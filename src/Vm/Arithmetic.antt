-- ===== src/Vm/Arithmetic.antt =====
-- The function objects of code/vm/src/vm.cpp: `Sx_fn` to `Cmp_ge_fn`. Integer results out of range,
-- a zero divisor and a quotient out of range are undefined (`none`). Float and double arithmetic is
-- a parameter, on bit patterns.
use basedlang.Prelude.{ℕ, suc, ◌/◌, ◌%◌, ◌^◌, Bool, not, Option, some, none, ◌==◌, if◌then◌else◌}
use basedlang.Prelude.Int.{ℤ, pos, negsuc, sub_ℕ, ◌+ℤ◌, ◌-ℤ◌, ◌*ℤ◌, ltb_ℤ}
use basedlang.Words.{in_range}
use basedlang.Vm.Scalar.{Scalar, int8, int16, int32, int64, float_, double_, bool_}

pub data UnaryFn : Type 0 where
  sx_fn neg_fn : UnaryFn

pub data BinaryFn : Type 0 where
  add_fn sub_fn mul_fn div_fn mod_fn : BinaryFn
  cmp_eq_fn cmp_ne_fn cmp_lt_fn cmp_le_fn cmp_gt_fn cmp_ge_fn : BinaryFn

-- The C++ operators of one floating-point type, on bit patterns.
pub record FloatOps : Type 0 where
  pub neg : ℕ → ℕ
  pub add : ℕ → ℕ → ℕ
  pub sub : ℕ → ℕ → ℕ
  pub mul : ℕ → ℕ → ℕ
  pub div : ℕ → ℕ → ℕ
  pub eq : ℕ → ℕ → Bool
  pub ne : ℕ → ℕ → Bool
  pub lt : ℕ → ℕ → Bool
  pub le : ℕ → ℕ → Bool
  pub gt : ℕ → ℕ → Bool
  pub ge : ℕ → ℕ → Bool

pub record Floats : Type 0 where
  pub single : FloatOps
  pub double : FloatOps

unfoldable pub neg_ℕ : ℕ → ℤ
neg_ℕ n = sub_ℕ 0 n

-- `a / b`, rounded towards zero
unfoldable pub div_ℤ : ℤ → ℤ → ℤ
unfolding neg_ℕ
div_ℤ (pos a) (pos b) = pos (a / b)
div_ℤ (pos a) (negsuc b) = neg_ℕ (a / suc b)
div_ℤ (negsuc a) (pos b) = neg_ℕ (suc a / b)
div_ℤ (negsuc a) (negsuc b) = pos (suc a / suc b)

-- `a % b`, with the sign of `a`
unfoldable pub mod_ℤ : ℤ → ℤ → ℤ
unfolding neg_ℕ
mod_ℤ (pos a) (pos b) = pos (a % b)
mod_ℤ (pos a) (negsuc b) = pos (a % suc b)
mod_ℤ (negsuc a) (pos b) = neg_ℕ (suc a % b)
mod_ℤ (negsuc a) (negsuc b) = neg_ℕ (suc a % suc b)

abbrev pub is_zero : ℤ → Bool
is_zero (pos n) = n == 0
is_zero (negsuc n) = Bool.false

abbrev pub eq_ℤ : ℤ → ℤ → Bool
eq_ℤ (pos a) (pos b) = a == b
eq_ℤ (negsuc a) (negsuc b) = a == b
eq_ℤ _ _ = Bool.false

abbrev pub checked : (ℤ → Scalar) → ℕ → ℤ → Option Scalar
checked make half z = if in_range half z then some (make z) else none

module _ (make : ℤ → Scalar) (half : ℕ) where
  -- The operators at a signed integer type whose values are `-half` to `half - 1`.
  unfoldable pub integer_binary : BinaryFn → ℤ → ℤ → Option Scalar
  unfolding ◌+ℤ◌ ◌-ℤ◌ ◌*ℤ◌ div_ℤ mod_ℤ
  integer_binary add_fn a b = checked make half (a +ℤ b)
  integer_binary sub_fn a b = checked make half (a -ℤ b)
  integer_binary mul_fn a b = checked make half (a *ℤ b)
  integer_binary div_fn a b = if is_zero b then none else checked make half (div_ℤ a b)
  integer_binary mod_fn a b =
      if is_zero b
      then none
      else if in_range half (div_ℤ a b)
      then some (make (mod_ℤ a b))
      else none
  integer_binary cmp_eq_fn a b = some (bool_ (eq_ℤ a b))
  integer_binary cmp_ne_fn a b = some (bool_ (not (eq_ℤ a b)))
  integer_binary cmp_lt_fn a b = some (bool_ (ltb_ℤ a b))
  integer_binary cmp_le_fn a b = some (bool_ (not (ltb_ℤ b a)))
  integer_binary cmp_gt_fn a b = some (bool_ (ltb_ℤ b a))
  integer_binary cmp_ge_fn a b = some (bool_ (not (ltb_ℤ a b)))

-- The operators at float and double; there is no `%`.
unfoldable pub float_binary : (ℕ → Scalar) → FloatOps → BinaryFn → ℕ → ℕ → Option Scalar
float_binary make ops add_fn a b = some (make (ops.add a b))
float_binary make ops sub_fn a b = some (make (ops.sub a b))
float_binary make ops mul_fn a b = some (make (ops.mul a b))
float_binary make ops div_fn a b = some (make (ops.div a b))
float_binary make ops mod_fn a b = none
float_binary make ops cmp_eq_fn a b = some (bool_ (ops.eq a b))
float_binary make ops cmp_ne_fn a b = some (bool_ (ops.ne a b))
float_binary make ops cmp_lt_fn a b = some (bool_ (ops.lt a b))
float_binary make ops cmp_le_fn a b = some (bool_ (ops.le a b))
float_binary make ops cmp_gt_fn a b = some (bool_ (ops.gt a b))
float_binary make ops cmp_ge_fn a b = some (bool_ (ops.ge a b))

module _ (floats : Floats) where
  -- `Fn{}(value)`; the types at which the source has no instance are `none`.
  unfoldable pub apply_unary : UnaryFn → Scalar → Option Scalar
  unfolding ◌-ℤ◌
  apply_unary sx_fn (int8 z) = some (int64 z)
  apply_unary sx_fn (int16 z) = some (int64 z)
  apply_unary sx_fn (int32 z) = some (int64 z)
  apply_unary neg_fn (int32 z) = checked int32 (2 ^ 31) (pos 0 -ℤ z)
  apply_unary neg_fn (int64 z) = checked int64 (2 ^ 63) (pos 0 -ℤ z)
  apply_unary neg_fn (float_ b) = some (float_ (floats.single.neg b))
  apply_unary neg_fn (double_ b) = some (double_ (floats.double.neg b))
  apply_unary _ _ = none

  -- `Fn{}(lhs, rhs)`
  unfoldable pub apply_binary : BinaryFn → Scalar → Scalar → Option Scalar
  unfolding integer_binary float_binary
  apply_binary fn (int32 a) (int32 b) = integer_binary int32 (2 ^ 31) fn a b
  apply_binary fn (int64 a) (int64 b) = integer_binary int64 (2 ^ 63) fn a b
  apply_binary fn (float_ a) (float_ b) = float_binary float_ (floats.single) fn a b
  apply_binary fn (double_ a) (double_ b) = float_binary double_ (floats.double) fn a b
  apply_binary fn _ _ = none
