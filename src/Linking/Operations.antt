-- ===== src/Linking/Operations.antt =====
-- Each operation of a module builder (code/bytecode/src/module_builder.cpp) on each of its branches.
use basedlang.Prelude.{
  ℕ, ◌+◌, ◌/◌, ◌%◌, ◌≡◌, refl, ap, some, none, List, [], ◌∷◌, ◌++◌, get_elem?, set, append_assoc,
  arith,
}
use basedlang.Bytecode.Module.{ScalarType}
use basedlang.Bytecode.Opcode.{Opcode, to_byte}
use basedlang.Bytecode.Writer.{Writer, Emit}
use basedlang.Bytecode.Emitter.{emit_jmp, emit_jnz}
use basedlang.Bytecode.Builder.{
  Builder, ok, err, assertion, written, target, place_label, emit_jmp_label, emit_jnz_label,
  declare_function, place_function,
}
use basedlang.Bytecode.Constants.{constant}
use basedlang.Format.Emits.{wrote}
use basedlang.Linking.Growth.{noted}

-- The bytes of a jump whose offset is left open.
abbrev pub open_jmp : List ℕ
open_jmp = to_byte Opcode.wide ∷ to_byte Opcode.jmp_i ∷ 0 ∷ 0 ∷ []

abbrev pub open_jnz : ℕ → List ℕ
open_jnz src = to_byte Opcode.wide ∷ to_byte Opcode.jnz_i ∷ src % 256 ∷ src / 256 % 256 ∷ 0 ∷ 0 ∷ []

module _ (l : ℕ) (b : Builder) where
  pub emit_jmp_label-placed :
      (t : ℕ)
      → get_elem? (b.label_positions) l ≡ some (some t)
      → emit_jmp_label l b ≡ written b (emit_jmp t (b.writer))
  unfolding emit_jmp_label
  emit_jmp_label-placed t e = rw (e, target)

  pub emit_jmp_label-noted :
      get_elem? (b.label_positions) l ≡ some none → emit_jmp_label l b ≡ ok (noted open_jmp 2 l b)
  unfolding emit_jmp_label
  emit_jmp_label-noted e =
      rw (e, target)
        (ap
          (λ w.
            ok (record b {
              writer = w;
              unresolved = b.unresolved ++ (b.writer.position + 2, l) ∷ [];
            }))
          (wrote (simp append_assoc) (omega arith)))

  pub emit_jmp_label-missing :
      get_elem? (b.label_positions) l ≡ none → emit_jmp_label l b ≡ err assertion
  unfolding emit_jmp_label
  emit_jmp_label-missing e = rw (e, target)

  pub emit_jnz_label-placed :
      (src t : ℕ)
      → get_elem? (b.label_positions) l ≡ some (some t)
      → emit_jnz_label src l b ≡ written b (emit_jnz src t (b.writer))
  unfolding emit_jnz_label
  emit_jnz_label-placed src t e = rw (e, target)

  pub emit_jnz_label-noted :
      (src : ℕ)
      → get_elem? (b.label_positions) l ≡ some none
      → emit_jnz_label src l b ≡ ok (noted (open_jnz src) 4 l b)
  unfolding emit_jnz_label
  emit_jnz_label-noted src e =
      rw (e, target)
        (ap
          (λ w.
            ok (record b {
              writer = w;
              unresolved = b.unresolved ++ (b.writer.position + 4, l) ∷ [];
            }))
          (wrote (simp append_assoc) (omega arith)))

  pub emit_jnz_label-missing :
      (src : ℕ) → get_elem? (b.label_positions) l ≡ none → emit_jnz_label src l b ≡ err assertion
  unfolding emit_jnz_label
  emit_jnz_label-missing src e = rw (e, target)

pub written-ok :
    (b b' : Builder) (e : Emit Writer)
    → written b e ≡ ok b'
    → (w : Writer) × (e ≡ Emit.ok w) × (b' ≡ record b { writer = w })
written-ok b b' (Emit.ok w) h = (w, refl, cc)
written-ok b b' (Emit.throw e) h = cc

module _ (b b' : Builder) where
  -- A placed label was not placed before, and now has the position of the code written so far.
  pub place_label-ok :
      (l : ℕ)
      → place_label l b ≡ ok b'
      → (get_elem? (b.label_positions) l ≡ some none)
        × (b' ≡ record b { label_positions = set (b.label_positions) l (some (b.writer.position)) })
  unfolding place_label
  place_label-ok l h = ground arith

  pub declare_function-ok :
      (name f n : ℕ) (ts : List ScalarType) (t : ScalarType)
      → declare_function name ts t n b ≡ ok (f, b')
      → (b'.writer ≡ b.writer)
        × (b'.unresolved ≡ b.unresolved)
        × (b'.label_positions ≡ b.label_positions)
  unfolding declare_function
  declare_function-ok name f n ts t h = ground arith

  pub place_function-ok :
      (f : ℕ)
      → place_function f b ≡ ok b'
      → (b'.writer ≡ b.writer)
        × (b'.unresolved ≡ b.unresolved)
        × (b'.label_positions ≡ b.label_positions)
  unfolding place_function
  place_function-ok f h = ground arith

  pub constant-ok :
      (bytes : List ℕ) (k : ℕ)
      → constant bytes b ≡ ok (k, b')
      → (b'.writer ≡ b.writer)
        × (b'.unresolved ≡ b.unresolved)
        × (b'.label_positions ≡ b.label_positions)
  unfolding constant
  constant-ok bytes k h = ground arith
