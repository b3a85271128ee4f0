-- ===== src/Streams/Utf8.antt =====
-- `Utf8_char_input_stream` (code/streams/include/streams/utf8_char_input_stream.h). The stream below it
-- is the list of the bytes that it has yet to give.
pub mod Encoding
pub mod Inverse
pub mod Reading
use basedlang.Prelude.{
  ℕ, zero, suc, ◌+◌, ◌*◌, ◌/◌, ◌%◌, Bool, ◌&&◌, ◌||◌, List, [], ◌∷◌, leb, ltb, ◌==◌, if◌then◌else◌,
}

-- A code point, the end of the input, or `Decode_error`, with the bytes that are left.
pub data Decoded : Type 0 where
  codepoint : ℕ → List ℕ → Decoded
  end_of_input : Decoded
  decode_error : List ℕ → Decoded

-- `(codepoint << 6) | (byte & 0b0011'1111)`: the shift leaves six bits free.
abbrev pub decode_continuation : ℕ → ℕ → ℕ
decode_continuation c byte = c * 64 + byte % 64

-- The byte is handed to what follows in the code.
unfoldable pub read_continuation : ℕ → ℕ → (ℕ → List ℕ → Decoded) → List ℕ → Decoded
read_continuation min max next [] = decode_error []
read_continuation min max next (byte ∷ rest) =
    if ltb byte min || ltb max byte then decode_error rest else next byte rest

abbrev pub read_tail : (ℕ → List ℕ → Decoded) → List ℕ → Decoded
read_tail = read_continuation 0x80 0xBF

-- The code point of two, three or four bytes, once the first has been read.
unfoldable pub two_bytes : ℕ → List ℕ → Decoded
unfolding read_continuation
two_bytes b₀ = read_tail λ b₁ rest. codepoint (decode_continuation (b₀ % 32) b₁) rest

unfoldable pub three_bytes : ℕ → ℕ → ℕ → List ℕ → Decoded
unfolding read_continuation
three_bytes min max b₀ = read_continuation min max λ b₁.
    read_tail λ b₂ rest. codepoint (decode_continuation (decode_continuation (b₀ % 16) b₁) b₂) rest

unfoldable pub four_bytes : ℕ → ℕ → ℕ → List ℕ → Decoded
unfolding read_continuation
four_bytes min max b₀ = read_continuation min max λ b₁. read_tail λ b₂. read_tail λ b₃ rest.
    codepoint (decode_continuation (decode_continuation (decode_continuation (b₀ % 8) b₁) b₂) b₃)
      rest

unfoldable pub decode_codepoint : List ℕ → Decoded
decode_codepoint [] = end_of_input
decode_codepoint (b₀ ∷ rest) =
    if b₀ / 128 % 2 == 0
    then codepoint b₀ rest
    else if leb 0xC2 b₀ && leb b₀ 0xDF
    then two_bytes b₀ rest
    else if b₀ == 0xE0
    then three_bytes 0xA0 0xBF b₀ rest
    else if leb 0xE1 b₀ && leb b₀ 0xEC || leb 0xEE b₀ && leb b₀ 0xEF
    then three_bytes 0x80 0xBF b₀ rest
    else if b₀ == 0xED
    then three_bytes 0x80 0x9F b₀ rest
    else if b₀ == 0xF0
    then four_bytes 0x90 0xBF b₀ rest
    else if leb 0xF1 b₀ && leb b₀ 0xF3
    then four_bytes 0x80 0xBF b₀ rest
    else if b₀ == 0xF4
    then four_bytes 0x80 0x8F b₀ rest
    else decode_error rest

-- What `read_characters` has put into its buffer, and the bytes that are left.
pub data Characters : Type 0 where
  characters : List ℕ → List ℕ → Characters
  failed : List ℕ → Characters

abbrev pub with_character : ℕ → Characters → Characters
with_character c (characters cs rest) = characters (c ∷ cs) rest
with_character c (failed rest) = failed rest

-- `read_characters` with a buffer of this size
unfoldable pub read_characters : ℕ → List ℕ → Characters
read_characters zero bytes = characters [] bytes
read_characters (suc n) bytes = elim (decode_codepoint bytes) [
  | codepoint c rest ↦ with_character c (read_characters n rest)
  | end_of_input ↦ characters [] []
  | decode_error rest ↦ failed rest
]
