-- ===== src/Words.antt =====
-- The fixed-width integers of the source: std::uint8_t and std::uint16_t as numbers below 2 ^ w,
-- signed integers as ℤ with their range beside them, and the conversions between the two.
use basedlang.Prelude.{ℕ, ◌+◌, ◌-◌, ◌*◌, ◌/◌, ◌%◌, ◌<◌, ◌≡◌, Bool, true, arith, ltb, if◌then◌else◌}
use basedlang.Prelude.Int.{ℤ, pos, negsuc}

-- `static_cast` of a signed integer to an unsigned type of `m` values: reduction modulo `m`.
abbrev pub wrap : ℕ → ℤ → ℕ
wrap m (pos n) = n % m
wrap m (negsuc n) = m - 1 - n % m

-- `v >> 8` of a signed integer, which rounds down.
abbrev pub shr_8 : ℤ → ℤ
shr_8 (pos n) = pos (n / 256)
shr_8 (negsuc n) = negsuc (n / 256)

-- `std::in_range` of the signed type whose values are `-half` to `half - 1`.
abbrev pub in_range : ℕ → ℤ → Bool
in_range half (pos n) = ltb n half
in_range half (negsuc n) = ltb n half

-- The signed reading of a bit pattern below `2 * half`.
abbrev pub signed : ℕ → ℕ → ℤ
signed half v = if ltb v half then pos v else negsuc (2 * half - 1 - v)

-- The two bytes of a 16-bit integer, low byte first, read back by `memcpy` into a std::int16_t.
pub signed-wrap_bytes :
    (z : ℤ) → in_range 32768 z ≡ true → signed 32768 (wrap 256 z + 256 * wrap 256 (shr_8 z)) ≡ z
signed-wrap_bytes (pos n) h = ground arith
signed-wrap_bytes (negsuc n) h = ground arith

-- The byte of an integer that fits a std::int8_t, read back as one.
pub signed-wrap_byte : (z : ℤ) → in_range 128 z ≡ true → signed 128 (wrap 256 z) ≡ z
signed-wrap_byte (pos n) h = ground arith
signed-wrap_byte (negsuc n) h = ground arith

pub wrap-lt : (m : ℕ) (z : ℤ) → 0 < m → wrap m z < m
wrap-lt m (pos n) h = omega arith
wrap-lt m (negsuc n) h = omega arith
