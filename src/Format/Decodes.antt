-- ===== src/Format/Decodes.antt =====
-- What the machine's operand decoders (code/vm/src/vm.cpp) read from code that holds an encoding.
use basedlang.Prelude.{
  ℕ, suc, ◌/◌, ◌%◌, ◌<◌, ◌≡◌, refl, Bool, true, false, List, [], ◌∷◌, ◌++◌, ap, ◌∙◌, arith,
}
use basedlang.Prelude.Int.{ℤ}
use basedlang.Words.{in_range, wrap, shr_8, signed-wrap_byte, signed-wrap_bytes}
use basedlang.Vm.Machine.{Vm, in_code, Outcome, ok, M, ◌>>=◌, >>=-ok, return, next_byte}
use basedlang.Vm.Run.{OperandWidth, narrow, wide, decode_register, decode_immediate}
use basedlang.Format.Defs.{
  Operand, unsigned, signed, operand_bytes, any_wide, width_if, width_of, IsWord, AreWords, Holds,
}

-- The operand survives being written in this width.
abbrev pub Fits : OperandWidth → Operand → Type 0
Fits narrow (unsigned r) = r < 256
Fits narrow (signed z) = in_range 128 z ≡ true
Fits wide o = IsWord o

abbrev pub AllFit : OperandWidth → List Operand → Type 0
AllFit w [] = Unit
AllFit w (o ∷ os) = Fits w o × AllFit w os

-- The machine with its instruction pointer moved.
abbrev pub at : Vm → ℕ → Vm
at vm p = record vm { instruction_pointer = in_code p }

module _ (vm : Vm) where
  abbrev pub HoldsAt : ℕ → List ℕ → ℕ → Type 0
  HoldsAt p bs q = Holds (vm.program.code) p bs q

  pub next_byte-at :
      (p b q : ℕ) (bs : List ℕ) → HoldsAt p (b ∷ bs) q → next_byte (at vm p) ≡ ok b (at vm (suc p))
  unfolding next_byte
  next_byte-at p b q bs h = rw (h.0, next_byte)

  two_bytes-at :
      {A : Type 0} (p b₀ b₁ q : ℕ) (bs : List ℕ)
      → HoldsAt p (b₀ ∷ b₁ ∷ bs) q
      → (f : ℕ → ℕ → A)
      → (next_byte >>= λ x. next_byte >>= λ y. return (f x y)) (at vm p)
        ≡ ok (f b₀ b₁) (at vm (suc (suc p)))
  two_bytes-at p b₀ b₁ q bs h f =
      >>=-ok next_byte _ (at vm p) _ _ (next_byte-at p b₀ q (b₁ ∷ bs) h)
      ∙ >>=-ok next_byte _ (at vm (suc p)) _ _ (next_byte-at (suc p) b₁ q bs (h.1))

  decode_register-at :
      (w : OperandWidth) (r : ℕ) (bs : List ℕ) (p q : ℕ)
      → Fits w (unsigned r)
      → HoldsAt p (operand_bytes w (unsigned r) ++ bs) q
      → (p' : ℕ) × (decode_register w (at vm p) ≡ ok r (at vm p')) × HoldsAt p' bs q
  unfolding decode_register
  decode_register-at narrow r bs p q f h =
      (suc p, next_byte-at p (r % 256) q bs h ∙ ap (λ x. ok x (at vm (suc p))) (omega arith), h.1)
  decode_register-at wide r bs p q f h = (
    suc (suc p),
    two_bytes-at p (r % 256) (r / 256 % 256) q bs h _
        ∙ ap (λ x. ok x (at vm (suc (suc p)))) (omega arith),
    h.1.1,
  )

  decode_immediate-at :
      (w : OperandWidth) (z : ℤ) (bs : List ℕ) (p q : ℕ)
      → Fits w (signed z)
      → HoldsAt p (operand_bytes w (signed z) ++ bs) q
      → (p' : ℕ) × (decode_immediate w (at vm p) ≡ ok z (at vm p')) × HoldsAt p' bs q
  unfolding decode_immediate
  decode_immediate-at narrow z bs p q f h = (
    suc p,
    >>=-ok next_byte _ (at vm p) _ _ (next_byte-at p (wrap 256 z) q bs h)
        ∙ ap (λ x. ok x (at vm (suc p))) (signed-wrap_byte z f),
    h.1,
  )
  decode_immediate-at wide z bs p q f h = (
    suc (suc p),
    two_bytes-at p (wrap 256 z) (wrap 256 (shr_8 z)) q bs h _
        ∙ ap (λ x. ok x (at vm (suc (suc p)))) (signed-wrap_bytes z f),
    h.1.1,
  )

  module _ {B : Type 0} (bs : List ℕ) (p q : ℕ) (out : Outcome B) where
    pub decode_register-then :
        (w : OperandWidth) (r : ℕ) (k : ℕ → M B)
        → Fits w (unsigned r)
        → HoldsAt p (operand_bytes w (unsigned r) ++ bs) q
        → ((p' : ℕ) → HoldsAt p' bs q → k r (at vm p') ≡ out)
        → (decode_register w >>= k) (at vm p) ≡ out
    decode_register-then w r k f h rest =
        let (p', e, h') = decode_register-at w r bs p q f h in
        >>=-ok (decode_register w) k (at vm p) (at vm p') _ e ∙ rest p' h'

    pub decode_immediate-then :
        (w : OperandWidth) (z : ℤ) (k : ℤ → M B)
        → Fits w (signed z)
        → HoldsAt p (operand_bytes w (signed z) ++ bs) q
        → ((p' : ℕ) → HoldsAt p' bs q → k z (at vm p') ≡ out)
        → (decode_immediate w >>= k) (at vm p) ≡ out
    decode_immediate-then w z k f h rest =
        let (p', e, h') = decode_immediate-at w z bs p q f h in
        >>=-ok (decode_immediate w) k (at vm p) (at vm p') _ e ∙ rest p' h'

-- Sixteen-bit operands fit in the width that the writer chooses.
narrow_fits : (os : List Operand) → any_wide os ≡ false → AllFit narrow os
narrow_fits [] h = tt
narrow_fits (unsigned r ∷ os) h = (ground arith, narrow_fits os (ground arith))
narrow_fits (signed z ∷ os) h = (ground arith, narrow_fits os (ground arith))

wide_fits : (os : List Operand) → AreWords os → AllFit wide os
wide_fits [] h = tt
wide_fits (o ∷ os) h = (h.0, wide_fits os (h.1))

pub width_of_fits : (os : List Operand) → AreWords os → AllFit (width_of os) os
width_of_fits os h = go (any_wide os) refl
  where
    go : (b : Bool) → any_wide os ≡ b → AllFit (width_if b) os
    go true e = wide_fits os h
    go false e = narrow_fits os e
