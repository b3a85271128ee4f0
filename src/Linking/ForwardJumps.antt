-- ===== src/Linking/ForwardJumps.antt =====
-- A jump to a label that is placed later (code/bytecode/src/module_builder.cpp and
-- bytecode_writer.h), run by the machine (code/vm/src/vm.cpp) in the built module.
use basedlang.Prelude.{
  ℕ, suc, ◌+◌, ◌-◌, ◌/◌, ◌%◌, ◌^◌, ◌≤◌, ◌<◌, ◌≡◌, ◌==◌, refl, sym, ap, ◌∙◌, subst, true, false,
  some, none, List, [], ◌∷◌, get_elem?, arith, if◌then◌else◌,
}
use basedlang.Prelude.Int.{pos, sub_ℕ}
use basedlang.Words.{wrap, shr_8, in_range, signed as signed_word}
use basedlang.Bytecode.Opcode.{Opcode}
use basedlang.Bytecode.Module.{Module, int32}
use basedlang.Bytecode.Builder.{Builder, ok, emit_jmp_label, emit_jnz_label}
use basedlang.Bytecode.Build.{build, offset_of}
use basedlang.Bytecode.Building.{Steps, IsValid}
use basedlang.Vm.Machine.{Vm, Outcome}
use basedlang.Vm.Scalar.{from_bits}
use basedlang.Vm.Registers.{get_register_value_lem}
use basedlang.Vm.Arithmetic.{Floats, is_zero}
use basedlang.Vm.Run.{wide}
use basedlang.Vm.Dispatch.{step}
use basedlang.Format.Defs.{Holds, encoding, signed, unsigned}
use basedlang.Format.Decodes.{at}
use basedlang.Format.Jumps.{jmp_i-step, jnz_i-step}
use basedlang.Linking.Growth.{noted, IsValid-noted}
use basedlang.Linking.Operations.{open_jmp, open_jnz, emit_jmp_label-noted, emit_jnz_label-noted}
use basedlang.Linking.Valid.{Steps-Extends, Steps-IsValid}
use basedlang.Linking.Patches.{emitted, patched, behind}

ok-injective : {a b : Builder} → ok a ≡ ok b → a ≡ b
ok-injective h = cc

sub_ℕ-pos : (a b : ℕ) → b ≤ a → sub_ℕ a b ≡ pos (a - b)
sub_ℕ-pos a b h = ground arith

-- For a label behind the site, below 2 ^ 64, the unsigned offset at the site is the displacement
-- from the position behind it, and fits the immediate.
offset_bytes :
    (t p q : ℕ)
    → q ≡ p + 2
    → p + 2 ≤ t
    → t < 2 ^ 64
    → offset_of t p < 32768
    → (offset_of t p % 256 ≡ wrap 256 (sub_ℕ t q))
      × (offset_of t p / 256 % 256 ≡ wrap 256 (shr_8 (sub_ℕ t q)))
      × (in_range 32768 (sub_ℕ t q) ≡ true)
offset_bytes t p q e le small fits =
    rw (sub_ℕ-pos t q (omega arith)) (omega arith, omega arith, ground arith)

shifted :
    {A : Type 0} (xs : List A) (i j : ℕ) {x y : A}
    → i ≡ j
    → x ≡ y
    → get_elem? xs i ≡ some x
    → get_elem? xs j ≡ some y
shifted xs i j e f h = ap (get_elem? xs) (sym e) ∙ h ∙ ap some f

module _ (floats : Floats) (vm : Vm) (b b₁ b₂ : Builder) (l : ℕ) (m : Module) (v : IsValid b)
    (unplaced : get_elem? (b.label_positions) l ≡ some none) where
  -- A jump to a label that is not yet placed, emitted by a valid builder: whatever is done with the
  -- builder afterwards, if it builds a module (of less than 2 ^ 64 bytes of code), the label has been
  -- placed, and a machine with the module's code that steps over the jump is at the label's position.
  pub emit_jmp_label-step :
      emit_jmp_label l b ≡ ok b₁
      → Steps b₁ b₂
      → build b₂ ≡ ok m
      → b₂.writer.position < 2 ^ 64
      → vm.program.code ≡ m.code
      → (t : ℕ) × (get_elem? (b₂.label_positions) l ≡ some (some t))
        × (step floats (at vm (b.writer.position)) ≡ Outcome.ok false (at vm t))
  emit_jmp_label-step e r built small c =
      let x = Steps-Extends (from e r) in
      let v₂ = Steps-IsValid (from e r) (IsValid-noted b open_jmp 2 l refl unplaced v) in
      let bytes = emitted b b₂ open_jmp 2 l m refl v v₂ x built in
      let (t, placed, fits, low, high) = patched b b₂ open_jmp 2 l m refl v v₂ x built in
      let q = b.writer.position in
      let (low', high', range) =
        offset_bytes t (q + 2) (q + 4) (omega arith)
          (behind b b₂ open_jmp 2 l m refl v v₂ x built t placed)
          (omega (arith, v₂.bounded l t placed)) fits in
      (
        t,
        placed,
        jmp_i-step floats vm wide t q (q + 4) (range, tt)
            (subst
              (λ code.
                Holds code q (encoding wide Opcode.jmp_i (signed (sub_ℕ t (q + 4)) ∷ [])) (q + 4))
              (sym c)
              (
                shifted (m.code) (q + 0) q (omega arith) refl (bytes 0 (omega arith)),
                (
                  shifted (m.code) (q + 1) (suc q) (omega arith) refl (bytes 1 (omega arith)),
                  (
                    shifted (m.code) (q + 2) (suc (suc q)) (omega arith) low' low,
                    (
                      shifted (m.code) (q + 2 + 1) (suc (suc (suc q))) (omega arith) high' high,
                      omega arith,
                    ),
                  ),
                ),
              )),
      )
    where
      from : emit_jmp_label l b ≡ ok b₁ → Steps b₁ b₂ → Steps (noted open_jmp 2 l b) b₂
      from e r =
          subst (λ y. Steps y b₂) (ok-injective (sym e ∙ emit_jmp_label-noted l b unplaced)) r

  -- A conditional jump to a label that is not yet placed, under the same conditions: the label has
  -- been placed, and the machine that steps over the jump is at the label's position if the low 32
  -- bits of the source register are not all zero, and behind the six bytes of the jump if they are.
  pub emit_jnz_label-step :
      (src value : ℕ)
      → src < 65536
      → emit_jnz_label src l b ≡ ok b₁
      → Steps b₁ b₂
      → build b₂ ≡ ok m
      → b₂.writer.position < 2 ^ 64
      → vm.program.code ≡ m.code
      → get_elem? (vm.registers) (vm.base_register + src) ≡ some value
      → (t : ℕ) × (get_elem? (b₂.label_positions) l ≡ some (some t))
        × (step floats (at vm (b.writer.position))
            ≡ Outcome.ok false (at vm (if value % 2 ^ 32 == 0 then b.writer.position + 6 else t)))
  unfolding from_bits
  emit_jnz_label-step src value word e r built small c held =
      let x = Steps-Extends (from e r) in
      let v₂ = Steps-IsValid (from e r) (IsValid-noted b (open_jnz src) 4 l refl unplaced v) in
      let bytes = emitted b b₂ (open_jnz src) 4 l m refl v v₂ x built in
      let (t, placed, fits, low, high) = patched b b₂ (open_jnz src) 4 l m refl v v₂ x built in
      let q = b.writer.position in
      let (low', high', range) =
        offset_bytes t (q + 4) (q + 6) (omega arith)
          (behind b b₂ (open_jnz src) 4 l m refl v v₂ x built t placed)
          (omega (arith, v₂.bounded l t placed)) fits in
      (
        t,
        placed,
        jnz_i-step floats vm wide t q (q + 6) src (signed_word (2 ^ 31) (value % 2 ^ 32))
              (word, (range, tt))
              (subst
                (λ code.
                  Holds code q
                    (encoding wide Opcode.jnz_i (unsigned src ∷ signed (sub_ℕ t (q + 6)) ∷ []))
                    (q + 6))
                (sym c)
                (
                  shifted (m.code) (q + 0) q (omega arith) refl (bytes 0 (omega arith)),
                  (
                    shifted (m.code) (q + 1) (suc q) (omega arith) refl (bytes 1 (omega arith)),
                    (
                      shifted (m.code) (q + 2) (suc (suc q)) (omega arith) refl
                          (bytes 2 (omega arith)),
                      (
                        shifted (m.code) (q + 3) (suc (suc (suc q))) (omega arith) refl
                            (bytes 3 (omega arith)),
                        (
                          shifted (m.code) (q + 4) (suc (suc (suc (suc q)))) (omega arith) low' low,
                          (
                            shifted (m.code) (q + 4 + 1) (suc (suc (suc (suc (suc q)))))
                                (omega arith) high' high,
                            omega arith,
                          ),
                        ),
                      ),
                    ),
                  ),
                ))
              (get_register_value_lem (at vm (q + 6)) src value held int32)
            ∙ ap (λ z. Outcome.ok false (at vm (if z then q + 6 else t)))
                (is_zero-signed (value % 2 ^ 32)),
      )
    where
      from : emit_jnz_label src l b ≡ ok b₁ → Steps b₁ b₂ → Steps (noted (open_jnz src) 4 l b) b₂
      from e r =
          subst (λ y. Steps y b₂) (ok-injective (sym e ∙ emit_jnz_label-noted l b src unplaced)) r

      is_zero-signed : (n : ℕ) → is_zero (signed_word (2 ^ 31) n) ≡ (n == 0)
      is_zero-signed n = ground arith
