-- ===== src/Linking/Pool.antt =====
-- The constant pool (`Module_builder::constant`, code/bytecode/src/module_builder.cpp).
use basedlang.Prelude.{
  ℕ, zero, suc, ◌+◌, ◌≤◌, ◌<◌, ◌≡◌, ◌≢◌, refl, sym, ap, ◌∙◌, subst, Bool, true, false, ◌&&◌, Option,
  some, none, List, [], ◌∷◌, ◌++◌, length, get_elem?, drop, ◌==◌, arith, length-append, append-nil,
  get_elem?-append-length, ==_iff, lt-of_get_elem?,
}
use native.Mathlib.Decide.{ℕ_discrete}
use basedlang.Bytecode.Builder.{Builder, Result, ok, err, constant_table_out_of_range}
use basedlang.Bytecode.Constants.{bytes_eq, held_at, find_constant, constant}
use basedlang.Format.Defs.{Holds}
use basedlang.Format.Code.{Holds-middle}

both_true : (a b : Bool) → (a && b) ≡ true → (a ≡ true) × (b ≡ true)
both_true a b h = ground arith

drop-cons :
    (data₀ : List ℕ) (o y : ℕ) (ys : List ℕ)
    → drop o data₀ ≡ y ∷ ys
    → (get_elem? data₀ o ≡ some y) × (drop (suc o) data₀ ≡ ys)
drop-cons [] zero y ys h = cc
drop-cons [] (suc o) y ys h = cc
drop-cons (x ∷ data₀) zero y ys h = (cc, cc)
drop-cons (x ∷ data₀) (suc o) y ys h = drop-cons data₀ o y ys h

bytes_eq-Holds :
    (bytes data₀ : List ℕ) (o : ℕ)
    → bytes_eq bytes (drop o data₀) ≡ true
    → Holds data₀ o bytes (o + length bytes)
unfolding bytes_eq
bytes_eq-Holds [] data₀ o h = omega arith
bytes_eq-Holds (x ∷ bytes) data₀ o h = go (drop o data₀) refl (bytes_eq-Holds bytes data₀ (suc o))
  where
    go :
        (d : List ℕ)
        → drop o data₀ ≡ d
        → (bytes_eq bytes (drop (suc o) data₀) ≡ true
            → Holds data₀ (suc o) bytes (suc o + length bytes))
        → Holds data₀ o (x ∷ bytes) (o + length (x ∷ bytes))
    go [] e ih = cc (ap (bytes_eq (x ∷ bytes)) e)
    go (y ∷ ys) e ih =
        let (at_o, rest) = drop-cons data₀ o y ys e in
        let (head, tail) = both_true (x == y) _ (sym (ap (bytes_eq (x ∷ bytes)) e) ∙ h) in
        (
          at_o ∙ ap some (sym ((==_iff x y).0 head)),
          subst (Holds data₀ (suc o) bytes) (omega arith) (ih (ap (bytes_eq bytes) rest ∙ tail)),
        )

held_at-Holds :
    (data₀ bytes : List ℕ) (o : ℕ)
    → held_at data₀ bytes o ≡ true
    → Holds data₀ o bytes (o + length bytes)
unfolding held_at
held_at-Holds data₀ bytes o h = bytes_eq-Holds bytes data₀ o ((both_true _ _ h).1)

-- The index that the search returns is one of the table's, and the bytes are at its offset.
find_constant-Holds :
    (data₀ bytes table : List ℕ) (i k : ℕ)
    → find_constant data₀ bytes table i ≡ some k
    → (n : ℕ) × (o : ℕ) × (k ≡ i + n)
      × (get_elem? table n ≡ some o)
      × Holds data₀ o bytes (o + length bytes)
unfolding find_constant
find_constant-Holds data₀ bytes [] i k h = cc
find_constant-Holds data₀ bytes (o ∷ table) i k h =
    go (held_at data₀ bytes o) refl (find_constant-Holds data₀ bytes table (suc i) k)
  where
    Found : ℕ → List ℕ → Type 0
    Found j t =
        (n : ℕ) × (o' : ℕ) × (k ≡ j + n)
        × (get_elem? t n ≡ some o')
        × Holds data₀ o' bytes (o' + length bytes)

    go :
        (t : Bool)
        → held_at data₀ bytes o ≡ t
        → (find_constant data₀ bytes table (suc i) ≡ some k → Found (suc i) table)
        → Found i (o ∷ table)
    go true e ih = (0, o, ground arith, refl, held_at-Holds data₀ bytes o e)
    go false e ih = let (n, o', p, g, held) = ih (ground arith) in (suc n, o', omega arith, g, held)

-- The pool after an interning: what was there stays, and the handle finds the bytes.
pub record Interned (b b' : Builder) (bytes : List ℕ) (k : ℕ) : Type 0 where
  pub more_table : List ℕ
  pub table_eq : b'.constant_table ≡ b.constant_table ++ more_table
  pub more_data : List ℕ
  pub data_eq : b'.constant_data ≡ b.constant_data ++ more_data
  pub offset : ℕ
  pub offset_eq : get_elem? (b'.constant_table) k ≡ some offset
  pub held : Holds (b'.constant_data) offset bytes (offset + length bytes)

-- The builder with the bytes as a new constant.
abbrev pub grown : List ℕ → Builder → Builder
grown bytes b = record b {
  constant_table = b.constant_table ++ length (b.constant_data) ∷ [];
  constant_data = b.constant_data ++ bytes;
}

module _ (bytes : List ℕ) (b : Builder) where
  constant-found :
      (i : ℕ)
      → find_constant (b.constant_data) bytes (b.constant_table) 0 ≡ some i
      → constant bytes b ≡ ok (i, b)
  unfolding constant
  constant-found i e = rw (e, constant)

  constant-new :
      find_constant (b.constant_data) bytes (b.constant_table) 0 ≡ none
      → length (b.constant_table) ≢ 65536
      → constant bytes b ≡ ok (length (b.constant_table), grown bytes b)
  unfolding constant
  constant-new e ne = rw (e, constant) (ground arith)

  constant-full :
      find_constant (b.constant_data) bytes (b.constant_table) 0 ≡ none
      → length (b.constant_table) ≡ 65536
      → constant bytes b ≡ err constant_table_out_of_range
  unfolding constant
  constant-full e full = rw (e, constant) (ground arith)

  Interned-found :
      (i : ℕ)
      → find_constant (b.constant_data) bytes (b.constant_table) 0 ≡ some i
      → Interned b b bytes i
  Interned-found i e =
      let (n, o, same, g, held) =
        find_constant-Holds (b.constant_data) bytes (b.constant_table) 0 i e in
      record {
        more_table = [];
        table_eq = sym (append-nil (b.constant_table));
        more_data = [];
        data_eq = sym (append-nil (b.constant_data));
        offset = o;
        offset_eq = ap (get_elem? (b.constant_table)) (omega arith) ∙ g;
        held = held;
      }

  Interned-new : Interned b (grown bytes b) bytes (length (b.constant_table))
  Interned-new = record {
    more_table = length (b.constant_data) ∷ [];
    table_eq = refl;
    more_data = bytes;
    data_eq = refl;
    offset = length (b.constant_data);
    offset_eq = get_elem?-append-length (b.constant_table) [] (length (b.constant_data));
    held =
        subst
          (λ d. Holds d (length (b.constant_data)) bytes (length (b.constant_data) + length bytes))
          (ap (λ x. b.constant_data ++ x) (append-nil bytes))
          (Holds-middle (b.constant_data) bytes [] (length (b.constant_data)) refl);
  }

  -- The table of a builder never outgrows the 16-bit handles.
  abbrev pub Fine : Result (ℕ × Builder) → Type 0
  Fine (ok (k, b')) = Interned b b' bytes k × (k < 65536) × (length (b'.constant_table) ≤ 65536)
  Fine (err e) = (e ≡ constant_table_out_of_range) × (length (b.constant_table) ≡ 65536)

  -- With at most 2 ^ 16 constants so far, interning either returns a handle below 2 ^ 16 whose offset
  -- in the data is followed by exactly the bytes, keeps the constants and handles that there were as
  -- prefixes, and leaves at most 2 ^ 16 constants; or it throws, and then there are already 2 ^ 16.
  pub constant-Interned : length (b.constant_table) ≤ 65536 → Fine (constant bytes b)
  constant-Interned small = go (find_constant (b.constant_data) bytes (b.constant_table) 0) refl
    where
      go :
          (o : Option ℕ)
          → find_constant (b.constant_data) bytes (b.constant_table) 0 ≡ o
          → Fine (constant bytes b)
      go (some i) e =
          let found = Interned-found i e in
          subst Fine (sym (constant-found i e)) (
            found,
            omega (arith, lt-of_get_elem? (b.constant_table) i (found.offset) (found.offset_eq)),
            small,
          )
      go none e = elim (ℕ_discrete (length (b.constant_table)) 65536) [
        | yes full ↦ subst Fine (sym (constant-full e full)) (refl, full)
        | no ne ↦ subst Fine (sym (constant-new e ne)) (
          Interned-new,
          omega arith,
          omega (arith, length-append (b.constant_table) (length (b.constant_data) ∷ [])),
        )
      ]
