-- ===== src/Format/JumpTargets.antt =====
-- `emit_jmp` and `emit_jnz` (code/bytecode/src/bytecode_writer.cpp): their two forms, when they throw,
-- and where the machine goes.
use basedlang.Prelude.{
  get_elem?, ◌%◌, ◌^◌, ◌==◌, ℕ, ◌+◌, ◌<◌, ◌≡◌, Bool, true, false, ◌&&◌, List, [], ◌∷◌, length,
  append_assoc, ap, ◌∙◌, sym, subst, some, arith, Bool-cases, ◌↔◌, not, inl, inr, if◌then◌else◌,
}
use basedlang.Prelude.Int.{sub_ℕ}
use basedlang.Words.{in_range, signed as signed_word}
use basedlang.Bytecode.Opcode.{Opcode}
use basedlang.Bytecode.Writer.{
  Writer, ok, throw, jmp_target_out_of_range, jnz_target_out_of_range, is_wide,
}
use basedlang.Bytecode.Emitter.{emit_jmp, emit_jnz}
use basedlang.Vm.Machine.{Vm, Outcome}
use basedlang.Bytecode.Module.{int32}
use basedlang.Vm.Scalar.{from_bits}
use basedlang.Vm.Registers.{get_register_value_lem}
use basedlang.Vm.Arithmetic.{Floats}
use basedlang.Vm.Run.{OperandWidth, narrow, wide}
use basedlang.Vm.Dispatch.{step}
use basedlang.Format.Defs.{unsigned, signed, encoding}
use basedlang.Format.Decodes.{at, HoldsAt, AllFit}
use basedlang.Format.Emits.{append, wrote, Appended}
use basedlang.Format.RoundTrip.{IsPositioned, HasCode, append-HoldsAt}
use basedlang.Format.Jumps.{jmp_i-step, jnz_i-step}

-- The writer after a jump in each form, and the displacement that is written.
abbrev jmp_narrow : ℕ → Writer → Writer
jmp_narrow target w =
    append (encoding narrow Opcode.jmp_i (signed (sub_ℕ target (w.position + 2)) ∷ [])) w

abbrev jmp_wide : ℕ → Writer → Writer
jmp_wide target w =
    append (encoding wide Opcode.jmp_i (signed (sub_ℕ target (w.position + 4)) ∷ [])) w

emit_jmp-narrow :
    (target : ℕ) (w : Writer)
    → in_range 128 (sub_ℕ target (w.position + 2)) ≡ true
    → emit_jmp target w ≡ ok (jmp_narrow target w)
unfolding emit_jmp
emit_jmp-narrow target w e = rw e (ap ok (wrote (simp append_assoc) (omega arith)))

emit_jmp-wide :
    (target : ℕ) (w : Writer)
    → in_range 128 (sub_ℕ target (w.position + 2)) ≡ false
    → in_range 32768 (sub_ℕ target (w.position + 4)) ≡ true
    → emit_jmp target w ≡ ok (jmp_wide target w)
unfolding emit_jmp
emit_jmp-wide target w e f = rw (e, f) (ap ok (wrote (simp append_assoc) (omega arith)))

emit_jmp-throw :
    (target : ℕ) (w : Writer)
    → in_range 128 (sub_ℕ target (w.position + 2)) ≡ false
    → in_range 32768 (sub_ℕ target (w.position + 4)) ≡ false
    → emit_jmp target w ≡ throw jmp_target_out_of_range
unfolding emit_jmp
emit_jmp-throw target w e f = rw (e, f)

abbrev jnz_narrow : ℕ → ℕ → Writer → Writer
jnz_narrow src target w =
    append
      (encoding narrow Opcode.jnz_i (unsigned src ∷ signed (sub_ℕ target (w.position + 3)) ∷ [])) w

abbrev jnz_wide : ℕ → ℕ → Writer → Writer
jnz_wide src target w =
    append (encoding wide Opcode.jnz_i (unsigned src ∷ signed (sub_ℕ target (w.position + 6)) ∷ []))
      w

emit_jnz-narrow :
    (src target : ℕ) (w : Writer)
    → is_wide src ≡ false
    → in_range 128 (sub_ℕ target (w.position + 3)) ≡ true
    → emit_jnz src target w ≡ ok (jnz_narrow src target w)
unfolding emit_jnz
emit_jnz-narrow src target w s e = rw (s, e) (ap ok (wrote (simp append_assoc) (omega arith)))

emit_jnz-wide :
    (src target : ℕ) (w : Writer)
    → (not (is_wide src) && in_range 128 (sub_ℕ target (w.position + 3))) ≡ false
    → in_range 32768 (sub_ℕ target (w.position + 6)) ≡ true
    → emit_jnz src target w ≡ ok (jnz_wide src target w)
unfolding emit_jnz
emit_jnz-wide src target w e f = rw (e, f) (ap ok (wrote (simp append_assoc) (omega arith)))

emit_jnz-throw :
    (src target : ℕ) (w : Writer)
    → (not (is_wide src) && in_range 128 (sub_ℕ target (w.position + 3))) ≡ false
    → in_range 32768 (sub_ℕ target (w.position + 6)) ≡ false
    → emit_jnz src target w ≡ throw jnz_target_out_of_range
unfolding emit_jnz
emit_jnz-throw src target w e f = rw (e, f)

narrow_source :
    (src : ℕ) (b : Bool)
    → (not (is_wide src) && b) ≡ true
    → (is_wide src ≡ false) × (src < 256) × (b ≡ true)
unfolding is_wide
narrow_source src b h = ground arith

ok-injective : {x y : Writer} → ok x ≡ ok y → x ≡ y
ok-injective e = cc

-- `emit_jmp` throws exactly when the target lies outside the 16-bit reach of the wide form.
pub emit_jmp-throw_iff :
    (target : ℕ) (w : Writer)
    → (emit_jmp target w ≡ throw jmp_target_out_of_range)
      ↔ (in_range 32768 (sub_ℕ target (w.position + 4)) ≡ false)
unfolding emit_jmp
emit_jmp-throw_iff target w = (λ h. ground arith, λ h. ground arith)

-- `emit_jnz` throws exactly when the target lies outside the 16-bit reach of the wide form.
pub emit_jnz-throw_iff :
    (src target : ℕ) (w : Writer)
    → (emit_jnz src target w ≡ throw jnz_target_out_of_range)
      ↔ (in_range 32768 (sub_ℕ target (w.position + 6)) ≡ false)
unfolding emit_jnz
emit_jnz-throw_iff src target w = (λ h. ground arith, λ h. ground arith)

-- An emitted jump only appends bytes.
pub emit_jmp-Appended : (target : ℕ) (w w' : Writer) → emit_jmp target w ≡ ok w' → Appended w w'
emit_jmp-Appended target w w' h = elim (Bool-cases (in_range 128 (sub_ℕ target (w.position + 2)))) [
  | inl e ↦ (_, ok-injective (sym h ∙ emit_jmp-narrow target w e))
  | inr e ↦ elim (Bool-cases (in_range 32768 (sub_ℕ target (w.position + 4)))) [
    | inl f ↦ (_, ok-injective (sym h ∙ emit_jmp-wide target w e f))
    | inr f ↦ cc (emit_jmp-throw target w e f)
  ]
]

pub emit_jnz-Appended :
    (src target : ℕ) (w w' : Writer) → emit_jnz src target w ≡ ok w' → Appended w w'
emit_jnz-Appended src target w w' h =
    elim (Bool-cases (not (is_wide src) && in_range 128 (sub_ℕ target (w.position + 3)))) [
      | inl e ↦
          let (s, l, f) = narrow_source src (in_range 128 (sub_ℕ target (w.position + 3))) e in
          (_, ok-injective (sym h ∙ emit_jnz-narrow src target w s f))
      | inr e ↦ elim (Bool-cases (in_range 32768 (sub_ℕ target (w.position + 6)))) [
        | inl f ↦ (_, ok-injective (sym h ∙ emit_jnz-wide src target w e f))
        | inr f ↦ cc (emit_jnz-throw src target w e f)
      ]
    ]

module _ (floats : Floats) (vm : Vm) (target : ℕ) (w w' : Writer) (rest : List ℕ) where
  jmp_form-step :
      (width : OperandWidth) (q : ℕ)
      → AllFit width (signed (sub_ℕ target q) ∷ [])
      → w.position + length (encoding width Opcode.jmp_i (signed (sub_ℕ target q) ∷ [])) ≡ q
      → IsPositioned w
      → HasCode vm (append (encoding width Opcode.jmp_i (signed (sub_ℕ target q) ∷ [])) w) rest
      → step floats (at vm (w.position)) ≡ Outcome.ok false (at vm target)
  jmp_form-step width q f e pw c = jmp_i-step floats vm width target (w.position) q f (
      subst (HoldsAt vm (w.position) (encoding width Opcode.jmp_i (signed (sub_ℕ target q) ∷ []))) e
        (append-HoldsAt vm w _ rest pw c))

  -- Whichever form `emit_jmp` chose, one step of the machine over what it wrote goes to the target.
  pub emit_jmp-step :
      emit_jmp target w ≡ ok w'
      → IsPositioned w
      → HasCode vm w' rest
      → step floats (at vm (w.position)) ≡ Outcome.ok false (at vm target)
  emit_jmp-step h pw c = elim (Bool-cases (in_range 128 (sub_ℕ target (w.position + 2)))) [
    | inl e ↦
        jmp_form-step narrow (w.position + 2) (e, tt) (omega arith) pw
          (subst (λ x. HasCode vm x rest) (ok-injective (sym h ∙ emit_jmp-narrow target w e)) c)
    | inr e ↦ elim (Bool-cases (in_range 32768 (sub_ℕ target (w.position + 4)))) [
      | inl f ↦
          jmp_form-step wide (w.position + 4) (f, tt) (omega arith) pw
            (subst (λ x. HasCode vm x rest) (ok-injective (sym h ∙ emit_jmp-wide target w e f)) c)
      | inr f ↦ cc (emit_jmp-throw target w e f)
    ]
  ]

  jnz_form-step :
      (src v : ℕ) (width : OperandWidth) (q : ℕ)
      → AllFit width (unsigned src ∷ signed (sub_ℕ target q) ∷ [])
      → w.position
          + length (encoding width Opcode.jnz_i (unsigned src ∷ signed (sub_ℕ target q) ∷ []))
        ≡ q
      → IsPositioned w
      → HasCode vm
          (append (encoding width Opcode.jnz_i (unsigned src ∷ signed (sub_ℕ target q) ∷ [])) w)
          rest
      → get_elem? (vm.registers) (vm.base_register + src) ≡ some v
      → step floats (at vm (w.position))
        ≡ Outcome.ok false (at vm (if v % 2 ^ 32 == 0 then q else target))
  unfolding from_bits
  jnz_form-step src v width q f e pw c r =
      jnz_i-step floats vm width target (w.position) q src (signed_word (2 ^ 31) (v % 2 ^ 32)) f
        (subst
          (HoldsAt vm (w.position)
            (encoding width Opcode.jnz_i (unsigned src ∷ signed (sub_ℕ target q) ∷ [])))
          e (append-HoldsAt vm w _ rest pw c))
        (get_register_value_lem (at vm q) src v r int32)
      ∙ ap (λ b. Outcome.ok false (at vm (if b then q else target))) (ground arith)

  -- Whichever form `emit_jnz` chose, one step of the machine over what it wrote goes to the target
  -- if the low 32 bits of the source register are not all zero, and to the next instruction if they
  -- are.
  pub emit_jnz-step :
      (src v : ℕ)
      → src < 65536
      → emit_jnz src target w ≡ ok w'
      → IsPositioned w
      → HasCode vm w' rest
      → get_elem? (vm.registers) (vm.base_register + src) ≡ some v
      → step floats (at vm (w.position))
        ≡ Outcome.ok false (at vm (if v % 2 ^ 32 == 0 then w'.position else target))
  emit_jnz-step src v hs h pw c r =
      elim (Bool-cases (not (is_wide src) && in_range 128 (sub_ℕ target (w.position + 3)))) [
        | inl e ↦
            let (s, l, f) = narrow_source src (in_range 128 (sub_ℕ target (w.position + 3))) e in
            moved (ok-injective (sym h ∙ emit_jnz-narrow src target w s f))
              (jnz_form-step src v narrow (w.position + 3) (l, (f, tt)) (omega arith) pw)
        | inr e ↦ elim (Bool-cases (in_range 32768 (sub_ℕ target (w.position + 6)))) [
          | inl f ↦
              moved (ok-injective (sym h ∙ emit_jnz-wide src target w e f))
                (jnz_form-step src v wide (w.position + 6) (hs, (f, tt)) (omega arith) pw)
          | inr f ↦ cc (emit_jnz-throw src target w e f)
        ]
      ]
    where
      moved :
          {x : Writer}
          → w' ≡ x
          → (HasCode vm x rest
              → get_elem? (vm.registers) (vm.base_register + src) ≡ some v
              → step floats (at vm (w.position))
                ≡ Outcome.ok false (at vm (if v % 2 ^ 32 == 0 then x.position else target)))
          → step floats (at vm (w.position))
            ≡ Outcome.ok false (at vm (if v % 2 ^ 32 == 0 then w'.position else target))
      moved e k =
          subst
            (λ y.
              step floats (at vm (w.position))
              ≡ Outcome.ok false (at vm (if v % 2 ^ 32 == 0 then y.position else target)))
            (sym e) (k (subst (λ y. HasCode vm y rest) e c) r)
