-- ===== src/Tests/Bytecode.antt =====
-- Builders at concrete inputs.
use basedlang.Prelude.{◌≡◌, refl, none, [], ◌∷◌}
use basedlang.Bytecode.Builder.{
  err, jmp_target_never_placed, function_never_placed, assertion, place_label,
}
use basedlang.Bytecode.Build.{build, all_placed, patch}
use basedlang.Bytecode.Module.{int32}
use basedlang.Tests.Samples.{fresh, jumped, placed_at}

build-unplaced_label : build jumped ≡ err jmp_target_never_placed
unfolding build all_placed patch
build-unplaced_label = refl

build-unplaced_function :
    build (record fresh {
      functions =
          record { position = none; parameter_types = []; return_type = int32; register_count = 0 }
          ∷ [];
    })
    ≡ err function_never_placed
unfolding build all_placed
build-unplaced_function = refl

place_label-twice : place_label 0 (placed_at jumped 5) ≡ err assertion
unfolding place_label
place_label-twice = refl
