-- ===== src/Bytecode/Module.antt =====
-- code/bytecode/include/bytecode/scalar_type.h and module.h: what a built module holds.
use basedlang.Prelude.{ℕ, Option, List}

-- `enum class Scalar_type`
pub data ScalarType : Type 0 where
  int8 int16 int32 int64 float_ double_ bool_ void_ : ScalarType

-- `struct Function_entry`; a position of -1, a function that is not yet placed, is `none`.
pub record FunctionEntry : Type 0 where
  pub position : Option ℕ
  pub parameter_types : List ScalarType
  pub return_type : ScalarType
  pub register_count : ℕ

-- `struct Module`, without the source map that nothing fills. Bytes are numbers below 256, and the
-- map from spellings to functions is an association list.
pub record Module : Type 0 where
  pub code : List ℕ
  pub constant_data : List ℕ
  pub constant_table : List ℕ
  pub functions : List FunctionEntry
  pub function_indices : List (ℕ × ℕ)
