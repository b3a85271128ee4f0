-- ===== src/Tests/Streams.antt =====
-- The decoder and the peeker at concrete inputs.
use basedlang.Prelude.{
  ℕ, ◌≡◌, refl, List, [], ◌∷◌, ◌++◌, arith, inl, ◌⊎◌, ◌↔◌, take, drop, sym, ap, ◌∙◌, ◌≤◌, ◌<◌,
  length, length-take, take-append-drop, some,
}
use basedlang.Streams.Utf8.{
  decode_codepoint, codepoint, decode_error, characters, read_characters, three_bytes,
  read_continuation,
}
use basedlang.Streams.Utf8.Encoding.{IsScalar, AreScalars, AreBytes, encode, encode_all}
use basedlang.Streams.Utf8.Inverse.{decode_codepoint-encode_iff}
use basedlang.Streams.Utf8.Reading.{read_characters-encode_all}
use basedlang.Streams.Buffered.{Buffered, read_bytes}
use basedlang.Streams.Buffered.Contract.{Contract, Holds}
use basedlang.Streams.Buffered.Reads.{read_bytes-Contract}
use basedlang.Streams.Peeker.{character, end_of_input, Peeker, new, peek, read}
use basedlang.Streams.Peeker.Lookahead.{Shows, new-Shows, peek-next_of, read-next_of}
use basedlang.Streams.Source.{read_character, utf8_text, peek-encode_all}

-- The euro sign, and an `A` behind it.
abbrev euro : List ℕ
euro = 0xE2 ∷ 0x82 ∷ 0xAC ∷ 65 ∷ []

euro-AreBytes : AreBytes euro
euro-AreBytes = (omega arith, (omega arith, (omega arith, (omega arith, tt))))

decode_codepoint-encode_iff_example :
    (decode_codepoint euro ≡ codepoint 0x20AC (65 ∷ []))
    ↔ (IsScalar 0x20AC × (euro ≡ encode 0x20AC ++ 65 ∷ []))
decode_codepoint-encode_iff_example =
    decode_codepoint-encode_iff 0x20AC euro (65 ∷ []) euro-AreBytes

-- An overlong encoding, and a surrogate.
overlong : decode_codepoint (0xE0 ∷ 0x82 ∷ 0xAC ∷ []) ≡ decode_error (0xAC ∷ [])
unfolding decode_codepoint three_bytes read_continuation
overlong = refl

surrogate : decode_codepoint (0xED ∷ 0xA0 ∷ 0x80 ∷ []) ≡ decode_error (0x80 ∷ [])
unfolding decode_codepoint three_bytes read_continuation
surrogate = refl

-- `A€é`
abbrev text : List ℕ
text = 65 ∷ 0x20AC ∷ 233 ∷ []

text-AreScalars : AreScalars text
text-AreScalars = (inl (omega arith), (inl (omega arith), (inl (omega arith), tt)))

read_characters-encode_all_example :
    read_characters 2 (encode_all text) ≡ characters (65 ∷ 0x20AC ∷ []) (encode_all (233 ∷ []))
read_characters-encode_all_example = read_characters-encode_all 2 text text-AreScalars

abbrev peeker : Peeker (List ℕ)
peeker = new (encode_all text) 3

peeker-Shows : Shows read_character utf8_text peeker text
peeker-Shows = new-Shows read_character utf8_text (encode_all text) text 3 (text-AreScalars, refl)

peek-next_of_example :
    (p : Peeker (List ℕ)) × (peek read_character 1 peeker ≡ (character 0x20AC, p))
    × Shows read_character utf8_text p text
unfolding new
peek-next_of_example =
    peek-next_of read_character utf8_text 1 peeker text peeker-Shows (omega arith)

read-next_of_example :
    (p : Peeker (List ℕ)) × (read read_character peeker ≡ (character 65, p))
    × Shows read_character utf8_text p (0x20AC ∷ 233 ∷ [])
read-next_of_example = read-next_of read_character utf8_text peeker text peeker-Shows

peek-encode_all_example :
    (p : Peeker (List ℕ)) × (peek read_character 3 (new (encode_all text) 3) ≡ (end_of_input, p))
    × Shows read_character utf8_text p text
peek-encode_all_example = peek-encode_all text 3 3 text-AreScalars (omega arith)

-- A byte stream that is the list of its bytes.
abbrev read_list : List ℕ → ℕ → List ℕ × List ℕ
read_list s n = (take n s, drop n s)

abbrev list_contract : Contract (List ℕ) read_list
list_contract = record {
  Gives = λ s bs. s ≡ bs;
  reads = λ s bs n e. (
    drop n s,
    sym e ∙ sym (take-append-drop n s),
    refl,
    omega (arith, length-take n s),
    λ p q. omega (arith, length-take n s, ap length e),
  );
}

abbrev buffered : Buffered (List ℕ)
buffered = record { stream = 3 ∷ 4 ∷ 5 ∷ []; filled = 1 ∷ 2 ∷ []; pos = 1 }

abbrev requested : ℕ
requested = 3

abbrev unread : List ℕ
unread = 2 ∷ 3 ∷ 4 ∷ 5 ∷ []

buffered-Holds : Holds read_list list_contract buffered unread
buffered-Holds = record { inside = omega arith; rest = 3 ∷ 4 ∷ 5 ∷ []; gives = refl; all = refl }

read_bytes-Contract_example :
    (got rest : List ℕ) × (b : Buffered (List ℕ)) × (read_bytes read_list requested buffered
      ≡ some (got, b))
    × (unread ≡ got ++ rest)
    × Holds read_list list_contract b rest
    × (length got ≤ requested)
    × ((0 < length got) ⊎ ((requested ≡ 0) ⊎ (length unread ≡ 0)))
read_bytes-Contract_example =
    read_bytes-Contract read_list list_contract requested buffered unread buffered-Holds
