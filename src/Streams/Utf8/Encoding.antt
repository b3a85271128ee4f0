-- ===== src/Streams/Utf8/Encoding.antt =====
-- UTF-8 from the other side: the bytes of a code point, as the standard's table has them.
use basedlang.Prelude.{ℕ, ◌+◌, ◌/◌, ◌%◌, ◌<◌, ◌⊎◌, List, [], ◌∷◌, ◌++◌, ltb, if◌then◌else◌}

-- A Unicode scalar value: a code point that is not a surrogate.
abbrev pub IsScalar : ℕ → Type 0
IsScalar c = (c < 0xD800) ⊎ ((0xDFFF < c) × (c < 0x110000))

-- The six bits that stand so many bytes before the end.
abbrev continuation : ℕ → ℕ
continuation x = 0x80 + x % 64

abbrev pub encode : ℕ → List ℕ
encode c =
    if ltb c 0x80
    then c ∷ []
    else if ltb c 0x800
    then (0xC0 + c / 64) ∷ continuation c ∷ []
    else if ltb c 0x10000
    then (0xE0 + c / 4096) ∷ continuation (c / 64) ∷ continuation c ∷ []
    else (0xF0 + c / 262144) ∷ continuation (c / 4096) ∷ continuation (c / 64) ∷ continuation c ∷ []

abbrev pub encode_all : List ℕ → List ℕ
encode_all [] = []
encode_all (c ∷ cs) = encode c ++ encode_all cs

abbrev pub AreBytes : List ℕ → Type 0
AreBytes [] = Unit
AreBytes (b ∷ bs) = (b < 256) × AreBytes bs

abbrev pub AreScalars : List ℕ → Type 0
AreScalars [] = Unit
AreScalars (c ∷ cs) = IsScalar c × AreScalars cs
