-- ===== src/Format/Defs.antt =====
-- Operands, the bytes of an instruction, and what it means that code holds them.
use basedlang.Prelude.{
  ℕ, suc, ◌/◌, ◌%◌, ◌<◌, ◌≡◌, Bool, true, false, not, ◌||◌, some, List, [], ◌∷◌, ◌++◌, get_elem?,
  ltb,
}
use basedlang.Prelude.Int.{ℤ}
use basedlang.Words.{wrap, shr_8, in_range}
use basedlang.Bytecode.Opcode.{Opcode, to_byte}
use basedlang.Vm.Run.{OperandWidth, narrow, wide}

-- A register, constant or function index, or an immediate.
pub data Operand : Type 0 where
  unsigned : ℕ → Operand
  signed : ℤ → Operand

abbrev pub operand_bytes : OperandWidth → Operand → List ℕ
operand_bytes narrow (unsigned r) = r % 256 ∷ []
operand_bytes narrow (signed z) = wrap 256 z ∷ []
operand_bytes wide (unsigned r) = r % 256 ∷ r / 256 % 256 ∷ []
operand_bytes wide (signed z) = wrap 256 z ∷ wrap 256 (shr_8 z) ∷ []

abbrev pub operands_bytes : OperandWidth → List Operand → List ℕ
operands_bytes w [] = []
operands_bytes w (o ∷ os) = operand_bytes w o ++ operands_bytes w os

-- The opcode's byte, after the byte of `wide` in the wide form, and the operands.
abbrev pub encoding : OperandWidth → Opcode → List Operand → List ℕ
encoding narrow op os = to_byte op ∷ operands_bytes narrow os
encoding wide op os = to_byte Opcode.wide ∷ to_byte op ∷ operands_bytes wide os

-- The operand does not fit in one byte.
abbrev pub needs_wide : Operand → Bool
needs_wide (unsigned r) = ltb 255 r
needs_wide (signed z) = not (in_range 128 z)

abbrev pub any_wide : List Operand → Bool
any_wide [] = false
any_wide (o ∷ os) = needs_wide o || any_wide os

abbrev pub width_if : Bool → OperandWidth
width_if true = wide
width_if false = narrow

-- The narrowest form in which every operand fits.
abbrev pub width_of : List Operand → OperandWidth
width_of os = width_if (any_wide os)

-- The operand is a value of its 16-bit type.
abbrev pub IsWord : Operand → Type 0
IsWord (unsigned r) = r < 65536
IsWord (signed z) = in_range 32768 z ≡ true

abbrev pub AreWords : List Operand → Type 0
AreWords [] = Unit
AreWords (o ∷ os) = IsWord o × AreWords os

-- From position `p` to position `q` the code holds just these bytes.
abbrev pub Holds : List ℕ → ℕ → List ℕ → ℕ → Type 0
Holds code p [] q = p ≡ q
Holds code p (b ∷ bs) q = (get_elem? code p ≡ some b) × Holds code (suc p) bs q
