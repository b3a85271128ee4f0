-- ===== src/Streams/Source.antt =====
-- The peeker on top of the UTF-8 decoder, as code/benson/src/run.cpp stacks them
-- (`Char_input_stream::read_character`, code/streams/include/streams/char_input_stream.h).
use basedlang.Prelude.{ℕ, ◌≤◌, ◌≡◌, refl, ap, ◌∙◌, List, [], ◌∷◌, drop, get_elem?}
use basedlang.Streams.Utf8.{Characters, characters, failed, read_characters}
use basedlang.Streams.Utf8.Encoding.{AreScalars, encode_all}
use basedlang.Streams.Utf8.Reading.{read_characters-encode_all}
use basedlang.Streams.Peeker.{Next, character, end_of_input, throws, Peeker, new, peek}
use basedlang.Streams.Peeker.Lookahead.{next_of, Text, Shows, new-Shows, peek-next_of}

abbrev first_of : Characters → Next × List ℕ
first_of (characters [] rest) = (end_of_input, rest)
first_of (characters (c ∷ cs) rest) = (character c, rest)
first_of (failed rest) = (throws, rest)

-- `read_character` of the decoder: a read with a buffer of one.
unfoldable pub read_character : List ℕ → Next × List ℕ
read_character bytes = first_of (read_characters 1 bytes)

pub read_character-encode_all :
    (cs : List ℕ)
    → AreScalars cs
    → read_character (encode_all cs) ≡ (next_of (get_elem? cs 0), encode_all (drop 1 cs))
unfolding read_character
read_character-encode_all [] s = ap first_of (read_characters-encode_all 1 [] s)
read_character-encode_all (c ∷ cs) s = ap first_of (read_characters-encode_all 1 (c ∷ cs) s)

pub AreScalars-drop : (cs : List ℕ) → AreScalars cs → AreScalars (drop 1 cs)
AreScalars-drop [] s = s
AreScalars-drop (c ∷ cs) s = s.1

-- The decoder's bytes encode the text.
abbrev pub utf8_text : Text (List ℕ) read_character
utf8_text = record {
  Gives = λ bytes cs. AreScalars cs × (bytes ≡ encode_all cs);
  next_eq = λ bytes cs g.
      ap (λ b. (read_character b).0) g.1 ∙ ap (λ r. r.0) (read_character-encode_all cs g.0);
  next_gives = λ bytes cs g. (
    AreScalars-drop cs g.0,
    ap (λ b. (read_character b).1) g.1 ∙ ap (λ r. r.1) (read_character-encode_all cs g.0),
  );
}

-- A new peeker on a decoder of the encoding of a text of scalar values gives the text: a peek at any
-- offset up to the largest returns the character there, or none where the text is shorter, and leaves
-- the peeker with the whole text to give.
pub peek-encode_all :
    (cs : List ℕ) (offset n : ℕ)
    → AreScalars cs
    → offset ≤ n
    → (p : Peeker (List ℕ)) × (peek read_character offset (new (encode_all cs) n)
        ≡ (next_of (get_elem? cs offset), p))
      × Shows read_character utf8_text p cs
unfolding new
peek-encode_all cs offset n s le =
    peek-next_of read_character utf8_text offset (new (encode_all cs) n) cs
      (new-Shows read_character utf8_text (encode_all cs) cs n (s, refl)) le
