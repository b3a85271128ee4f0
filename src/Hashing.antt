-- ===== src/Hashing.antt =====
-- `Hash_state` on bytes, and `hash_text` (code/hashing/include/hashing/hash.h).
use Prim.Native.Nat.{bit_xor}
use basedlang.Prelude.{ℕ, ◌*◌, ◌%◌, ◌^◌, List, [], ◌∷◌}

-- The loop of `mix`
unfoldable pub mix : ℕ → List ℕ → ℕ
mix value [] = value
mix value (byte ∷ bytes) = mix (bit_xor value byte * 1099511628211 % 2 ^ 64) bytes

unfoldable pub hash_text : List ℕ → ℕ
unfolding mix
hash_text text = mix 14695981039346656037 text
