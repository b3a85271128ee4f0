-- ===== src/Bytecode/Builder.antt =====
-- code/bytecode/src/module_builder.cpp: labels, functions, constants and the final patching of jumps.
-- The writer's stream is the code of the module under construction, since the builder's output
-- stream appends to it.
use basedlang.Prelude.{
  ℕ, ◌+◌, Bool, false, ◌||◌, Option, some, none, List, [], ◌∷◌, ◌++◌, length, get_elem?, set, ltb,
  ◌==◌, if◌then◌else◌,
}
use basedlang.Bytecode.Module.{ScalarType, FunctionEntry}
use basedlang.Bytecode.Writer.{Writer, Emit, EmitError}
use basedlang.Bytecode.Emitter.{emit_jmp_to, emit_jnz_to}

-- The members of `class Module_builder`. A label and a function are their indices; an unresolved
-- jump is its patch position and its label.
pub record Builder : Type 0 where
  pub writer : Writer
  pub constant_data : List ℕ
  pub constant_table : List ℕ
  pub functions : List FunctionEntry
  pub function_indices : List (ℕ × ℕ)
  pub label_positions : List (Option ℕ)
  pub unresolved : List (ℕ × ℕ)

-- What the code throws, and a violated `assert`.
pub data BuildError : Type 0 where
  emit_error : EmitError → BuildError
  function_table_out_of_range constant_table_out_of_range : BuildError
  function_never_placed jmp_target_never_placed jmp_target_out_of_range : BuildError
  assertion : BuildError

pub data Result (A : Type 0) : Type 0 where
  ok : A → Result A
  err : BuildError → Result A

infixl 5 ◌>>=◌
abbrev pub ◌>>=◌ : {A B : Type 0} → Result A → (A → Result B) → Result B
ok a >>= f = f a
err e >>= f = err e

unfoldable pub new : Builder
new = record {
  writer = record { stream = []; position = 0 };
  constant_data = [];
  constant_table = [];
  functions = [];
  function_indices = [];
  label_positions = [];
  unresolved = [];
}

unfoldable pub make_label : Builder → ℕ × Builder
make_label b =
    (length (b.label_positions), record b { label_positions = b.label_positions ++ none ∷ [] })

unfoldable pub place_label : ℕ → Builder → Result Builder
place_label label b = elim (get_elem? (b.label_positions) label) [
  | some none ↦
      ok (record b { label_positions = set (b.label_positions) label (some (b.writer.position)) })
  | some (some p) ↦ err assertion
  | none ↦ err assertion
]

-- `Label_jump_target_provider::target`: a label that is not yet placed is noted for patching.
unfoldable pub target : ℕ → ℕ → Builder → Result (Option ℕ × Builder)
target label patch_position b = elim (get_elem? (b.label_positions) label) [
  | some (some p) ↦ ok (some p, b)
  | some none ↦ ok (none, record b { unresolved = b.unresolved ++ (patch_position, label) ∷ [] })
  | none ↦ err assertion
]

-- The writer's emission on the builder's code.
abbrev pub written : Builder → Emit Writer → Result Builder
written b (Emit.ok w) = ok (record b { writer = w })
written b (Emit.throw e) = err (emit_error e)

-- `writer().emit_jmp(label_target(label))`
unfoldable pub emit_jmp_label : ℕ → Builder → Result Builder
unfolding target emit_jmp_to
emit_jmp_label label b = do
  (t, b') ← target label (b.writer.position + 2) b
  written b' (emit_jmp_to t (b'.writer))

-- `writer().emit_jnz(src, label_target(label))`
unfoldable pub emit_jnz_label : ℕ → ℕ → Builder → Result Builder
unfolding target emit_jnz_to
emit_jnz_label src label b = do
  (t, b') ← target label (b.writer.position + 4) b
  written b' (emit_jnz_to src t (b'.writer))

-- The name is a key of `function_indices`, so that `emplace` would leave the map as it is.
unfoldable pub has_name : ℕ → List (ℕ × ℕ) → Bool
has_name name [] = false
has_name name ((n, f) ∷ entries) = n == name || has_name name entries

unfoldable pub declare_function :
    ℕ → List ScalarType → ScalarType → ℕ → Builder → Result (ℕ × Builder)
unfolding has_name
declare_function name parameter_types return_type register_count b =
    if ltb 65535 (length (b.functions))
    then err function_table_out_of_range
    else if has_name name (b.function_indices)
    then err assertion
    else ok (
      length (b.functions),
      record b {
        functions =
            b.functions
            ++ record {
              position = none;
              parameter_types = parameter_types;
              return_type = return_type;
              register_count = register_count;
            }
              ∷ [];
        function_indices = b.function_indices ++ (name, length (b.functions)) ∷ [];
      },
    )

unfoldable pub place_function : ℕ → Builder → Result Builder
place_function function b = elim (get_elem? (b.functions) function) [
  | none ↦ err assertion
  | some entry ↦ elim (entry.position) [
    | some p ↦ err assertion
    | none ↦ ok (record b {
      functions = set (b.functions) function (record entry { position = some (b.writer.position) });
    })
  ]
]
