-- ===== src/Vm/Pointer.antt =====
-- code/vm/include/vm/pointer.h: the address space in the two top bits of a 64-bit word.
use Prim.Native.Nat.{bit_or}
use basedlang.Prelude.{
  ℕ, ◌+◌, ◌*◌, ◌/◌, ◌%◌, ◌^◌, ◌<◌, ◌≡◌, Option, some, none, ◌==◌, if◌then◌else◌, arith,
}

-- `enum class Address_space`
pub data AddressSpace : Type 0 where
  constant stack heap : AddressSpace

-- The enumerator's value, divided by 2 ^ 62.
unfoldable pub space_bits : AddressSpace → ℕ
space_bits constant = 3
space_bits stack = 1
space_bits heap = 2

-- `Pointer(space, offset)`: `space | offset`. The value of a space has no bit below the two top ones.
unfoldable pub make_pointer : AddressSpace → ℕ → ℕ
unfolding space_bits
make_pointer space offset = bit_or (space_bits space) (offset / 2 ^ 62) * 2 ^ 62 + offset % 2 ^ 62

-- The space of `Pointer::decode`: `_value & 0xC000000000000000`. `none` is a value with no name.
unfoldable pub decode_space : ℕ → Option AddressSpace
decode_space value =
    let top = value / 2 ^ 62 % 4 in
    if top == 3
    then some constant
    else if top == 1
    then some stack
    else if top == 2
    then some heap
    else none

-- The offset of `Pointer::decode`: `_value & 0x3FFFFFFFFFFFFFFF`.
unfoldable pub decode_offset : ℕ → ℕ
decode_offset value = value % 2 ^ 62

-- A pointer whose offset is below 2 ^ 62 decodes to the space and the offset that it was made of.
pub decode-make_pointer :
    (space : AddressSpace) (offset : ℕ)
    → offset < 2 ^ 62
    → (decode_space (make_pointer space offset) ≡ some space)
      × (decode_offset (make_pointer space offset) ≡ offset)
unfolding make_pointer decode_space decode_offset
decode-make_pointer space offset h = go space (omega arith)
  where
    go :
        (s : AddressSpace)
        → offset / 2 ^ 62 ≡ 0
        → (decode_space (make_pointer s offset) ≡ some s)
          × (decode_offset (make_pointer s offset) ≡ offset)
    go constant e = rw e (ground arith, omega arith)
    go stack e = rw e (ground arith, omega arith)
    go heap e = rw e (ground arith, omega arith)
