-- ===== src/Format/Shapes.antt =====
-- The decoding of one, two or three operands from code that holds them (code/vm/src/vm.cpp).
use basedlang.Prelude.{ℕ, ◌≡◌, [], ◌∷◌, ap}
use basedlang.Prelude.Int.{ℤ}
use basedlang.Vm.Machine.{Vm, M, ◌>>=◌}
use basedlang.Vm.Run.{OperandWidth, decode_register, decode_immediate}
use basedlang.Format.Defs.{unsigned, signed, operands_bytes}
use basedlang.Format.Decodes.{AllFit, at, HoldsAt, decode_register-then, decode_immediate-then}
use basedlang.Format.Instructions.{unsigned₂, unsigned₃, signed_unsigned, based}

module _ (vm : Vm) (w : OperandWidth) where
  -- One, two or three operands, each decoded and handed on.
  pub one :
      (a p q : ℕ) (k : ℕ → M (Unit {0}))
      → AllFit w (unsigned a ∷ [])
      → HoldsAt vm p (operands_bytes w (unsigned a ∷ [])) q
      → (decode_register w >>= k) (at vm p) ≡ k a (at vm q)
  one a p q k f h = decode_register-then vm [] p q _ w a k (f.0) h λ p₁ e. ap (λ x. k a (at vm x)) e

  pub one_immediate :
      (z : ℤ) (p q : ℕ) (k : ℤ → M (Unit {0}))
      → AllFit w (signed z ∷ [])
      → HoldsAt vm p (operands_bytes w (signed z ∷ [])) q
      → (decode_immediate w >>= k) (at vm p) ≡ k z (at vm q)
  one_immediate z p q k f h =
      decode_immediate-then vm [] p q _ w z k (f.0) h λ p₁ e. ap (λ x. k z (at vm x)) e

  pub two :
      (os : ℕ × ℕ) (p q : ℕ) (k : ℕ → ℕ → M (Unit {0}))
      → AllFit w (unsigned₂ os)
      → HoldsAt vm p (operands_bytes w (unsigned₂ os)) q
      → (decode_register w >>= λ a. decode_register w >>= λ b. k a b) (at vm p)
        ≡ k (os.0) (os.1) (at vm q)
  two (a, b) p q k f h =
      decode_register-then vm (operands_bytes w (unsigned b ∷ [])) p q _ w a _ (f.0) h
        λ p₁ h₁. one b p₁ q (k a) (f.1) h₁

  pub signed_one :
      (os : ℤ × ℕ) (p q : ℕ) (k : ℤ → ℕ → M (Unit {0}))
      → AllFit w (signed_unsigned os)
      → HoldsAt vm p (operands_bytes w (signed_unsigned os)) q
      → (decode_immediate w >>= λ a. decode_register w >>= λ b. k a b) (at vm p)
        ≡ k (os.0) (os.1) (at vm q)
  signed_one (a, b) p q k f h =
      decode_immediate-then vm (operands_bytes w (unsigned b ∷ [])) p q _ w a _ (f.0) h
        λ p₁ h₁. one b p₁ q (k a) (f.1) h₁

  pub three :
      (os : ℕ × ℕ × ℕ) (p q : ℕ) (k : ℕ → ℕ → ℕ → M (Unit {0}))
      → AllFit w (unsigned₃ os)
      → HoldsAt vm p (operands_bytes w (unsigned₃ os)) q
      → (decode_register w >>= λ a. decode_register w >>= λ b. decode_register w >>= λ c. k a b c)
          (at vm p)
        ≡ k (os.0) (os.1) (os.2) (at vm q)
  three (a, b, c) p q k f h =
      decode_register-then vm (operands_bytes w (unsigned b ∷ unsigned c ∷ [])) p q _ w a _ (f.0) h
        λ p₁ h₁. two (b, c) p₁ q (k a) (f.1) h₁

  pub based_three :
      (os : ℕ × ℤ × ℕ) (p q : ℕ) (k : ℕ → ℤ → ℕ → M (Unit {0}))
      → AllFit w (based os)
      → HoldsAt vm p (operands_bytes w (based os)) q
      → (decode_register w >>= λ a. decode_immediate w >>= λ b. decode_register w >>= λ c. k a b c)
          (at vm p)
        ≡ k (os.0) (os.1) (os.2) (at vm q)
  based_three (a, b, c) p q k f h =
      decode_register-then vm (operands_bytes w (signed b ∷ unsigned c ∷ [])) p q _ w a _ (f.0) h
        λ p₁ h₁. signed_one (b, c) p₁ q (k a) (f.1) h₁
