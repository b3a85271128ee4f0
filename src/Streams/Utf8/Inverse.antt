-- ===== src/Streams/Utf8/Inverse.antt =====
-- The decoder (code/streams/include/streams/utf8_char_input_stream.h) is the inverse of the encoding.
use basedlang.Prelude.{
  ℕ, ◌+◌, ◌/◌, ◌%◌, ◌≤◌, ◌<◌, ◌≡◌, refl, inl, inr, ◌⊎◌, List, [], ◌∷◌, ◌++◌, ltb, arith, Bool, true,
  false, if◌then◌else◌, leb, ◌==◌, ◌&&◌, ◌||◌, Bool-cases, ◌↔◌, ap, ◌∙◌,
}
use basedlang.Streams.Utf8.Encoding.{IsScalar, AreBytes, encode}
use basedlang.Streams.Utf8.{
  Decoded, codepoint, decode_error, two_bytes, three_bytes, four_bytes, decode_codepoint,
}

decode_one : (c : ℕ) (rest : List ℕ) → c < 0x80 → decode_codepoint (c ∷ rest) ≡ codepoint c rest
unfolding decode_codepoint
decode_one c rest h = ground arith

decode_two :
    (c : ℕ) (rest : List ℕ)
    → 0x80 ≤ c
    → c < 0x800
    → decode_codepoint ((0xC0 + c / 64) ∷ (0x80 + c % 64) ∷ rest) ≡ codepoint c rest
unfolding decode_codepoint two_bytes
decode_two c rest lo hi = ground arith

decode_three :
    (c : ℕ) (rest : List ℕ)
    → 0x800 ≤ c
    → c < 0x10000
    → IsScalar c
    → decode_codepoint ((0xE0 + c / 4096) ∷ (0x80 + c / 64 % 64) ∷ (0x80 + c % 64) ∷ rest)
      ≡ codepoint c rest
unfolding decode_codepoint three_bytes
decode_three c rest lo hi (inl s) = ground arith
decode_three c rest lo hi (inr s) = ground arith

decode_four :
    (c : ℕ) (rest : List ℕ)
    → 0x10000 ≤ c
    → c < 0x110000
    → decode_codepoint (
        (0xF0 + c / 262144)
        ∷ (0x80 + c / 4096 % 64)
        ∷ (0x80 + c / 64 % 64)
        ∷ (0x80 + c % 64)
        ∷ rest)
      ≡ codepoint c rest
unfolding decode_codepoint four_bytes
decode_four c rest lo hi = ground arith

-- What the decoder makes of a first byte and those that it takes for its tail is the encoding of the
-- code point.
two_bytes_sound :
    (b₀ c : ℕ) (bytes rest : List ℕ)
    → 0xC2 ≤ b₀
    → b₀ ≤ 0xDF
    → two_bytes b₀ bytes ≡ codepoint c rest
    → IsScalar c × (b₀ ∷ bytes ≡ encode c ++ rest)
unfolding two_bytes
two_bytes_sound b₀ c [] rest lo hi e = cc
two_bytes_sound b₀ c (b₁ ∷ bytes) rest lo hi e = (inl (ground arith), ground arith)

-- No overlong form, and no surrogate.
abbrev InPlane : ℕ → ℕ → ℕ → Type 0
InPlane min max b₀ =
    (0x80 ≤ min)
    × (max ≤ 0xBF)
    × (0xE0 ≤ b₀)
    × (b₀ ≤ 0xEF)
    × ((0xA0 ≤ min) ⊎ (0xE1 ≤ b₀))
    × ((b₀ ≤ 0xEC) ⊎ (((b₀ ≤ 0xED) × (max ≤ 0x9F)) ⊎ (0xEE ≤ b₀)))

three_bytes_sound :
    (min max b₀ c : ℕ) (bytes rest : List ℕ)
    → InPlane min max b₀
    → three_bytes min max b₀ bytes ≡ codepoint c rest
    → IsScalar c × (b₀ ∷ bytes ≡ encode c ++ rest)
unfolding three_bytes
three_bytes_sound min max b₀ c [] rest p e = cc
three_bytes_sound min max b₀ c (b₁ ∷ []) rest p e = ground arith
three_bytes_sound min max b₀ c (b₁ ∷ b₂ ∷ bytes) rest (lo, hi, lo₀, hi₀, long, inl low) e =
    (inl (ground arith), ground arith)
three_bytes_sound min max b₀ c (b₁ ∷ b₂ ∷ bytes) rest (lo, hi, lo₀, hi₀, long, inr (inl mid)) e =
    (inl (ground arith), ground arith)
three_bytes_sound min max b₀ c (b₁ ∷ b₂ ∷ bytes) rest (lo, hi, lo₀, hi₀, long, inr (inr high)) e =
    (inr (ground arith, ground arith), ground arith)

four_bytes_sound :
    (min max b₀ c : ℕ) (bytes rest : List ℕ)
    → 0x80 ≤ min
    → max ≤ 0xBF
    → 0xF0 ≤ b₀
    → b₀ ≤ 0xF4
    → (0x90 ≤ min) ⊎ (0xF1 ≤ b₀)
    → (max ≤ 0x8F) ⊎ (b₀ ≤ 0xF3)
    → four_bytes min max b₀ bytes ≡ codepoint c rest
    → IsScalar c × (b₀ ∷ bytes ≡ encode c ++ rest)
unfolding four_bytes
four_bytes_sound min max b₀ c [] rest lo hi lo₀ hi₀ long large e = cc
four_bytes_sound min max b₀ c (b₁ ∷ []) rest lo hi lo₀ hi₀ long large e = ground arith
four_bytes_sound min max b₀ c (b₁ ∷ b₂ ∷ []) rest lo hi lo₀ hi₀ long large e = ground arith
four_bytes_sound min max b₀ c (b₁ ∷ b₂ ∷ b₃ ∷ bytes) rest lo hi lo₀ hi₀ long large e =
    (inr (ground arith, ground arith), ground arith)

-- A decoded code point is a scalar value, and the bytes are its encoding and those that are left.
record Sound (bytes : List ℕ) (d : Decoded) : Type 0 where
  at : (c : ℕ) (rest : List ℕ) → d ≡ codepoint c rest → IsScalar c × (bytes ≡ encode c ++ rest)

choose :
    {bytes : List ℕ} {b : Bool} {x y : Decoded}
    → (b ≡ true → Sound bytes x)
    → (b ≡ false → Sound bytes y)
    → Sound bytes (if b then x else y)
choose {b = true} f g = f refl
choose {b = false} f g = g refl

Sound-three :
    (min max b₀ : ℕ) (bytes : List ℕ)
    → InPlane min max b₀
    → Sound (b₀ ∷ bytes) (three_bytes min max b₀ bytes)
Sound-three min max b₀ bytes p = record {
  at = λ c rest. three_bytes_sound min max b₀ c bytes rest p;
}

Sound-four :
    (min max b₀ : ℕ) (bytes : List ℕ)
    → 0x80 ≤ min
    → max ≤ 0xBF
    → 0xF0 ≤ b₀
    → b₀ ≤ 0xF4
    → (0x90 ≤ min) ⊎ (0xF1 ≤ b₀)
    → (max ≤ 0x8F) ⊎ (b₀ ≤ 0xF3)
    → Sound (b₀ ∷ bytes) (four_bytes min max b₀ bytes)
Sound-four min max b₀ bytes lo hi lo₀ hi₀ long large = record {
  at = λ c rest. four_bytes_sound min max b₀ c bytes rest lo hi lo₀ hi₀ long large;
}

decode_codepoint-Sound : (bytes : List ℕ) → AreBytes bytes → Sound bytes (decode_codepoint bytes)
unfolding decode_codepoint
decode_codepoint-Sound [] all = record { at = λ c rest e. cc }
decode_codepoint-Sound (b₀ ∷ bytes) (small, all) =
    choose {b = b₀ / 128 % 2 == 0} {x = codepoint b₀ bytes}
      (λ h. record { at = λ c rest e. (inl (ground arith), ground arith) })
      λ h₀.
        choose {b = leb 0xC2 b₀ && leb b₀ 0xDF} {x = two_bytes b₀ bytes}
          (λ h. record {
            at = λ c rest. two_bytes_sound b₀ c bytes rest (ground arith) (ground arith);
          })
          λ h₁.
            choose {b = b₀ == 0xE0}
              (λ h. Sound-three 0xA0 0xBF b₀ bytes (
                omega arith,
                omega arith,
                ground arith,
                ground arith,
                inl (omega arith),
                inl (ground arith),
              ))
              λ h₂.
                choose {b = leb 0xE1 b₀ && leb b₀ 0xEC || leb 0xEE b₀ && leb b₀ 0xEF}
                  (λ h. Sound-three 0x80 0xBF b₀ bytes (apart b₀ h))
                  λ h₃.
                    choose {b = b₀ == 0xED}
                      (λ h. Sound-three 0x80 0x9F b₀ bytes (
                        omega arith,
                        omega arith,
                        ground arith,
                        ground arith,
                        inr (ground arith),
                        inr (inl (ground arith, omega arith)),
                      ))
                      λ h₄.
                        choose {b = b₀ == 0xF0}
                          (λ h.
                            Sound-four 0x90 0xBF b₀ bytes (omega arith) (omega arith) (ground arith)
                              (ground arith) (inl (omega arith)) (inr (ground arith)))
                          λ h₅.
                            choose {b = leb 0xF1 b₀ && leb b₀ 0xF3}
                              (λ h.
                                Sound-four 0x80 0xBF b₀ bytes (omega arith) (omega arith)
                                  (ground arith) (ground arith) (inr (ground arith))
                                  (inr (ground arith)))
                              λ h₆.
                                choose {b = b₀ == 0xF4} {y = decode_error bytes}
                                  (λ h.
                                    Sound-four 0x80 0x8F b₀ bytes (omega arith) (omega arith)
                                      (ground arith) (ground arith) (inr (ground arith))
                                      (inl (omega arith)))
                                  λ h₇. record { at = λ c rest e. cc }
  where
    apart :
        (b : ℕ)
        → (leb 0xE1 b && leb b 0xEC || leb 0xEE b && leb b 0xEF) ≡ true
        → InPlane 0x80 0xBF b
    apart b h = elim (Bool-cases (leb b 0xEC)) [
      | inl low ↦ (
        omega arith,
        omega arith,
        ground arith,
        ground arith,
        inr (ground arith),
        inl (ground arith),
      )
      | inr high ↦ (
        omega arith,
        omega arith,
        ground arith,
        ground arith,
        inr (ground arith),
        inr (inr (ground arith)),
      )
    ]

-- A scalar value's encoding, whatever follows it, is decoded to the scalar value.
pub decode_codepoint-encode :
    (c : ℕ) (rest : List ℕ) → IsScalar c → decode_codepoint (encode c ++ rest) ≡ codepoint c rest
decode_codepoint-encode c rest s = elim (Bool-cases (ltb c 0x80)) [
  | inl h ↦ rw h (decode_one c rest (ground arith))
  | inr h ↦ elim (Bool-cases (ltb c 0x800)) [
    | inl k ↦ rw (h, k) (decode_two c rest (ground arith) (ground arith))
    | inr k ↦ elim (Bool-cases (ltb c 0x10000)) [
      | inl l ↦ rw (h, k, l) (decode_three c rest (ground arith) (ground arith) s)
      | inr l ↦ rw (h, k, l) (decode_four c rest (ground arith) (top s))
    ]
  ]
]
  where
    top : IsScalar c → c < 0x110000
    top (inl e) = omega arith
    top (inr e) = e.1

-- For an input of bytes, the decoder gives a code point exactly when the bytes begin with the encoding
-- of a scalar value, which is this code point, and it then leaves those behind it.
pub decode_codepoint-encode_iff :
    (c : ℕ) (bytes rest : List ℕ)
    → AreBytes bytes
    → (decode_codepoint bytes ≡ codepoint c rest) ↔ (IsScalar c × (bytes ≡ encode c ++ rest))
decode_codepoint-encode_iff c bytes rest all = (
  (decode_codepoint-Sound bytes all).at c rest,
  λ h. ap decode_codepoint (h.1) ∙ decode_codepoint-encode c rest (h.0),
)
