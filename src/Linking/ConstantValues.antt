-- ===== src/Linking/ConstantValues.antt =====
-- A constant that a builder interned (code/bytecode/src/module_builder.cpp), as the machine reads it
-- (`get_constant_value`, code/vm/include/vm/vm.h).
use basedlang.Prelude.{
  ℕ, suc, ◌+◌, ◌*◌, ◌≡◌, refl, sym, ap, ◌∙◌, subst, some, List, [], ◌∷◌, ◌++◌, length, get_elem?,
  arith, get_elem?-append, lt-of_get_elem?,
}
use basedlang.Bytecode.Module.{ScalarType}
use basedlang.Bytecode.Builder.{Builder, ok}
use basedlang.Bytecode.Constants.{constant}
use basedlang.Vm.Scalar.{from_bits}
use basedlang.Vm.Machine.{Vm, Outcome, read_le, size_of, get_constant_value}
use basedlang.Format.Defs.{Holds}
use basedlang.Bytecode.Module.{Module}
use basedlang.Bytecode.Builder.{new}
use basedlang.Bytecode.Build.{build}
use basedlang.Bytecode.Building.{Steps}
use basedlang.Linking.Pool.{Interned, Fine, constant-Interned}
use basedlang.Linking.Kept.{HasRoom, Steps-Keeps, build-pool}

-- The number whose bytes these are, low byte first.
abbrev pub le_value : List ℕ → ℕ
le_value [] = 0
le_value (b ∷ bs) = b + 256 * le_value bs

Holds-append :
    (xs rest : List ℕ) (p : ℕ) (bs : List ℕ) (q : ℕ) → Holds xs p bs q → Holds (xs ++ rest) p bs q
Holds-append xs rest p [] q h = h
Holds-append xs rest p (b ∷ bs) q h = (
  get_elem?-append xs rest p (lt-of_get_elem? xs p b (h.0)) ∙ h.0,
  Holds-append xs rest (suc p) bs q (h.1),
)

read_le-Holds :
    (xs : List ℕ) (p : ℕ) (bs : List ℕ) (q : ℕ)
    → Holds xs p bs q
    → read_le (get_elem? xs) (length bs) p ≡ some (le_value bs)
unfolding read_le
read_le-Holds xs p [] q h = refl
read_le-Holds xs p (b ∷ bs) q h = rw (h.0, read_le-Holds xs (suc p) bs q (h.1), read_le)

get_constant_value-Interned :
    (t : ScalarType) (bytes : List ℕ) (b b' : Builder) (k : ℕ) (vm : Vm) (table data₀ : List ℕ)
    → Interned b b' bytes k
    → length bytes ≡ size_of t
    → vm.program.constant_table ≡ b'.constant_table ++ table
    → vm.program.constant_data ≡ b'.constant_data ++ data₀
    → get_constant_value t k vm ≡ Outcome.ok (from_bits t (le_value bytes)) vm
unfolding get_constant_value
get_constant_value-Interned t bytes b b' k vm table data₀ x size table_eq data_eq =
    rw (at_k, value, get_constant_value)
  where
    at_k : get_elem? (vm.program.constant_table) k ≡ some (x.offset)
    at_k =
        ap (λ l. get_elem? l k) table_eq
        ∙ get_elem?-append (b'.constant_table) table k
            (lt-of_get_elem? (b'.constant_table) k (x.offset) (x.offset_eq))
        ∙ x.offset_eq

    value :
        read_le (get_elem? (vm.program.constant_data)) (size_of t) (x.offset)
        ≡ some (le_value bytes)
    value =
        subst
          (λ n. read_le (get_elem? (vm.program.constant_data)) n (x.offset) ≡ some (le_value bytes))
          size
          (subst (λ d. read_le (get_elem? d) (length bytes) (x.offset) ≡ some (le_value bytes))
            (sym data_eq)
            (read_le-Holds (b'.constant_data ++ data₀) (x.offset) bytes (x.offset + length bytes) (
              Holds-append (b'.constant_data) data₀ (x.offset) bytes (x.offset + length bytes)
                (x.held))))

new-HasRoom : HasRoom new
unfolding new
new-HasRoom = omega arith

-- A constant interned by a builder that began as a new one: whatever is done with the builder
-- afterwards, if it builds a module, the machine that runs this module reads the constant's bytes, low
-- byte first, under the handle, at any type of their size.
pub constant-get_constant_value :
    (t : ScalarType) (bytes : List ℕ) (b b₁ b₂ : Builder) (k : ℕ) (m : Module) (vm : Vm)
    → Steps new b
    → constant bytes b ≡ ok (k, b₁)
    → Steps b₁ b₂
    → build b₂ ≡ ok m
    → vm.program ≡ m
    → length bytes ≡ size_of t
    → get_constant_value t k vm ≡ Outcome.ok (from_bits t (le_value bytes)) vm
constant-get_constant_value t bytes b b₁ b₂ k m vm before interned after built p size =
    let (x, small, room) =
      subst (Fine bytes b) interned
        (constant-Interned bytes b ((Steps-Keeps before new-HasRoom).1)) in
    let pools = (Steps-Keeps after room).0 in
    let (table, data₀) = build-pool b₂ m built in
    get_constant_value-Interned t bytes b b₁ k vm (pools.table) (pools.bytes) x size
      (ap (λ y. y.constant_table) p ∙ table ∙ pools.table_eq)
      (ap (λ y. y.constant_data) p ∙ data₀ ∙ pools.bytes_eq)
