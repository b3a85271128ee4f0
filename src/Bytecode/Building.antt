-- ===== src/Bytecode/Building.antt =====
-- The uses of a module builder (code/bytecode/include/bytecode/module_builder.h) before it is built, as a
-- relation between its states: every public operation but `build`, and every emission through its
-- writer. `build` moves the code out of the builder and leaves the writer's position, the labels and
-- the patch sites as they are, so that nothing here holds of a builder behind it.
use basedlang.Prelude.{ℕ, ◌≤◌, ◌<◌, ◌+◌, ◌≡◌, Option, some, List, [], ◌∷◌, ◌++◌, length, get_elem?}
use basedlang.Bytecode.Opcode.{Opcode}
use basedlang.Bytecode.Module.{ScalarType}
use basedlang.Bytecode.Writer.{Writer, Emit}
use basedlang.Bytecode.Emitter.{emit_exit, emit_jmp, emit_jnz}
use basedlang.Bytecode.Instruction.{emitter, Args, emit}
use basedlang.Bytecode.Builder.{
  Builder, ok, make_label, place_label, emit_jmp_label, emit_jnz_label, declare_function,
  place_function,
}
use basedlang.Bytecode.Constants.{constant}
use basedlang.Bytecode.Relocation.{Ordered}

pub data Step (b : Builder) : Builder → Type 0 where
  emits :
      (op : Opcode) (a : Args (emitter op)) → Step b (record b { writer = emit op a (b.writer) })
  exits : Step b (record b { writer = emit_exit (b.writer) })
  jumps :
      (t : ℕ) (w : Writer) → emit_jmp t (b.writer) ≡ Emit.ok w → Step b (record b { writer = w })
  branches :
      (src t : ℕ) (w : Writer)
      → emit_jnz src t (b.writer) ≡ Emit.ok w
      → Step b (record b { writer = w })
  jumps_to_label : (l : ℕ) {b' : Builder} → emit_jmp_label l b ≡ ok b' → Step b b'
  branches_to_label : (src l : ℕ) {b' : Builder} → emit_jnz_label src l b ≡ ok b' → Step b b'
  makes_label : Step b (make_label b).1
  places_label : (l : ℕ) {b' : Builder} → place_label l b ≡ ok b' → Step b b'
  declares :
      (name : ℕ) (ts : List ScalarType) (t : ScalarType) (n f : ℕ) {b' : Builder}
      → declare_function name ts t n b ≡ ok (f, b')
      → Step b b'
  places_function : (f : ℕ) {b' : Builder} → place_function f b ≡ ok b' → Step b b'
  interns : (bytes : List ℕ) (k : ℕ) {b' : Builder} → constant bytes b ≡ ok (k, b') → Step b b'

-- Any number of uses before the builder is built.
pub data Steps (b : Builder) : Builder → Type 0 where
  done : Steps b b
  next : {b' b'' : Builder} → Steps b b' → Step b' b'' → Steps b b''

-- Labels noted for patching exist, and one that is placed lies behind the bytes to be patched.
abbrev pub Forward : List (Option ℕ) → List (ℕ × ℕ) → Type 0
Forward labels [] = Unit
Forward labels ((p, l) ∷ us) =
    (l < length labels)
    × ((t : ℕ) → get_elem? labels l ≡ some (some t) → p + 2 ≤ t)
    × Forward labels us

pub record IsValid (b : Builder) : Type 0 where
  pub positioned : b.writer.position ≡ length (b.writer.stream)
  pub ordered : Ordered 0 (b.unresolved) (b.writer.position)
  pub forward : Forward (b.label_positions) (b.unresolved)
  pub bounded : (l t : ℕ) → get_elem? (b.label_positions) l ≡ some (some t) → t ≤ b.writer.position

-- What the uses of a builder keep: code and sites are only added, behind what is there, and a label
-- once placed stays where it is.
pub record Extends (b b' : Builder) : Type 0 where
  pub code : List ℕ
  pub stream_eq : b'.writer.stream ≡ b.writer.stream ++ code
  pub sites : List (ℕ × ℕ)
  pub unresolved_eq : b'.unresolved ≡ b.unresolved ++ sites
  pub ordered : Ordered (b.writer.position) sites (b'.writer.position)
  pub kept :
      (l t : ℕ)
      → get_elem? (b.label_positions) l ≡ some (some t)
      → get_elem? (b'.label_positions) l ≡ some (some t)
