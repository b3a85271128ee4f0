-- ===== src/Bytecode/Build.antt =====
-- `Module_builder::build` (code/bytecode/src/module_builder.cpp): the check that every function is
-- placed, the patching of the jumps whose labels were placed later, and the finished module. The state
-- that a builder is left in is not modelled: its module is moved out, and it is not used again.
use basedlang.Prelude.{
  ℕ, ◌+◌, ◌-◌, ◌/◌, ◌%◌, ◌^◌, Bool, true, false, ◌&&◌, Option, some, none, List, [], ◌∷◌, get_elem?,
  set, ltb, if◌then◌else◌,
}
use basedlang.Bytecode.Module.{FunctionEntry, Module}
use basedlang.Bytecode.Builder.{
  Builder, Result, ok, err, ◌>>=◌, function_never_placed, jmp_target_never_placed,
  jmp_target_out_of_range, assertion,
}

unfoldable pub all_placed : List FunctionEntry → Bool
all_placed [] = true
all_placed (f ∷ fs) = elim (f.position) [ some p ↦ true | none ↦ false ] && all_placed fs

-- `*target - (position + sizeof(Immediate::Underlying_type))` in std::size_t, where `sizeof` takes
-- the subtraction.
abbrev pub offset_of : ℕ → ℕ → ℕ
offset_of t position = (t + 2 ^ 64 - (position + 2)) % 2 ^ 64

-- The two bytes of one unresolved jump.
abbrev pub patch_bytes : List ℕ → ℕ → ℕ → List ℕ
patch_bytes code position offset =
    set (set code position (offset % 256)) (position + 1) (offset / 256 % 256)

unfoldable pub patch : List (Option ℕ) → List (ℕ × ℕ) → List ℕ → Result (List ℕ)
patch labels [] code = ok code
patch labels ((position, label) ∷ unresolved) code = elim (get_elem? labels label) [
  | none ↦ err assertion
  | some none ↦ err jmp_target_never_placed
  | some (some t) ↦
      let rest = patch labels unresolved (patch_bytes code position (offset_of t position)) in
      if ltb (offset_of t position) 32768 then rest else err jmp_target_out_of_range
]

unfoldable pub build : Builder → Result Module
unfolding all_placed patch
build b =
    if all_placed (b.functions)
    then (patch (b.label_positions) (b.unresolved) (b.writer.stream) >>= λ code. ok (record {
      code = code;
      constant_data = b.constant_data;
      constant_table = b.constant_table;
      functions = b.functions;
      function_indices = b.function_indices;
    }))
    else err function_never_placed
