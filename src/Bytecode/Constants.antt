-- ===== src/Bytecode/Constants.antt =====
-- `Module_builder::constant` (code/bytecode/src/module_builder.cpp): the constant pool.
use basedlang.Prelude.{
  ℕ, suc, ◌+◌, Bool, true, false, ◌&&◌, Option, some, none, List, [], ◌∷◌, ◌++◌, length, drop, leb,
  ◌==◌, if◌then◌else◌,
}
use basedlang.Bytecode.Builder.{Builder, Result, ok, err, constant_table_out_of_range}

-- `std::equal` of the bytes with those from the offset on.
unfoldable pub bytes_eq : List ℕ → List ℕ → Bool
bytes_eq [] ys = true
bytes_eq (x ∷ xs) [] = false
bytes_eq (x ∷ xs) (y ∷ ys) = (x == y) && bytes_eq xs ys

-- The data from the offset on begins with the bytes, and has room for them.
unfoldable pub held_at : List ℕ → List ℕ → ℕ → Bool
unfolding bytes_eq
held_at data₀ bytes offset =
    leb (offset + length bytes) (length data₀) && bytes_eq bytes (drop offset data₀)

-- The loop over the constant table, from index `i` on.
unfoldable pub find_constant : List ℕ → List ℕ → List ℕ → ℕ → Option ℕ
unfolding held_at
find_constant data₀ bytes [] i = none
find_constant data₀ bytes (offset ∷ table) i =
    let rest = find_constant data₀ bytes table (suc i) in
    if held_at data₀ bytes offset then some i else rest

unfoldable pub constant : List ℕ → Builder → Result (ℕ × Builder)
unfolding find_constant
constant bytes b = elim (find_constant (b.constant_data) bytes (b.constant_table) 0) [
  | some i ↦ ok (i, b)
  | none ↦
      if length (b.constant_table) == 65536
      then err constant_table_out_of_range
      else ok (
        length (b.constant_table),
        record b {
          constant_table = b.constant_table ++ length (b.constant_data) ∷ [];
          constant_data = b.constant_data ++ bytes;
        },
      )
]
