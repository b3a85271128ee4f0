-- ===== src/Streams/Utf8/Reading.antt =====
-- `read_characters` (code/streams/include/streams/utf8_char_input_stream.h) on the encoding of a text.
use basedlang.Prelude.{ℕ, zero, suc, ◌≡◌, refl, ap, List, [], ◌∷◌, take, drop}
use basedlang.Streams.Utf8.{
  characters, with_character, decode_codepoint, end_of_input, read_characters,
}
use basedlang.Streams.Utf8.Encoding.{AreScalars, encode_all}
use basedlang.Streams.Utf8.Inverse.{decode_codepoint-encode}

decode_end : decode_codepoint [] ≡ end_of_input
unfolding decode_codepoint
decode_end = refl

-- With a buffer of any size, reading the encoding of a text of scalar values fills the buffer with as
-- much of the text as fits, or all of it, and leaves the encoding of the rest.
pub read_characters-encode_all :
    (n : ℕ) (cs : List ℕ)
    → AreScalars cs
    → read_characters n (encode_all cs) ≡ characters (take n cs) (encode_all (drop n cs))
unfolding read_characters
read_characters-encode_all zero cs s = refl
read_characters-encode_all (suc n) [] s = rw (decode_end, read_characters) refl
read_characters-encode_all (suc n) (c ∷ cs) s =
    rw (decode_codepoint-encode c (encode_all cs) (s.0), read_characters)
      (ap (with_character c) (read_characters-encode_all n cs (s.1)))
