-- ===== src/Linking/Kept.antt =====
-- What becomes of the constants (code/bytecode/src/module_builder.cpp) in any use of a builder.
use basedlang.Prelude.{
  ℕ, ◌≡◌, refl, sym, ap, ◌∙◌, subst, List, [], ◌++◌, length, arith, append_assoc, append-nil, ◌≤◌,
}
use basedlang.Bytecode.Module.{ScalarType, Module}
use basedlang.Bytecode.Builder.{
  Builder, ok, make_label, place_label, target, emit_jmp_label, emit_jnz_label, declare_function,
  place_function,
}
use basedlang.Bytecode.Constants.{constant}
use basedlang.Bytecode.Build.{build}
use basedlang.Linking.Pool.{Fine, constant-Interned}
use basedlang.Bytecode.Building.{
  Step, emits, exits, jumps, branches, jumps_to_label, branches_to_label, makes_label, places_label,
  declares, places_function, interns, Steps, done, next,
}

-- Constants are only added, behind those that are there.
pub record Pools (b b' : Builder) : Type 0 where
  pub table : List ℕ
  pub table_eq : b'.constant_table ≡ b.constant_table ++ table
  pub bytes : List ℕ
  pub bytes_eq : b'.constant_data ≡ b.constant_data ++ bytes

-- The handles of the constants fit in 16 bits.
abbrev pub HasRoom : Builder → Type 0
HasRoom b = length b.constant_table ≤ 65536

same :
    (b b' : Builder)
    → (b'.constant_table ≡ b.constant_table) × (b'.constant_data ≡ b.constant_data)
    → Pools b b'
same b b' (e, f) = record {
  table = [];
  table_eq = e ∙ sym (append-nil (b.constant_table));
  bytes = [];
  bytes_eq = f ∙ sym (append-nil (b.constant_data));
}

module _ (b b' : Builder) where
  emit_jmp_label-same :
      (l : ℕ)
      → emit_jmp_label l b ≡ ok b'
      → (b'.constant_table ≡ b.constant_table) × (b'.constant_data ≡ b.constant_data)
  unfolding emit_jmp_label target
  emit_jmp_label-same l h = ground arith

  emit_jnz_label-same :
      (src l : ℕ)
      → emit_jnz_label src l b ≡ ok b'
      → (b'.constant_table ≡ b.constant_table) × (b'.constant_data ≡ b.constant_data)
  unfolding emit_jnz_label target
  emit_jnz_label-same src l h = ground arith

  place_label-same :
      (l : ℕ)
      → place_label l b ≡ ok b'
      → (b'.constant_table ≡ b.constant_table) × (b'.constant_data ≡ b.constant_data)
  unfolding place_label
  place_label-same l h = ground arith

  declare_function-same :
      (name f n : ℕ) (ts : List ScalarType) (t : ScalarType)
      → declare_function name ts t n b ≡ ok (f, b')
      → (b'.constant_table ≡ b.constant_table) × (b'.constant_data ≡ b.constant_data)
  unfolding declare_function
  declare_function-same name f n ts t h = ground arith

  place_function-same :
      (f : ℕ)
      → place_function f b ≡ ok b'
      → (b'.constant_table ≡ b.constant_table) × (b'.constant_data ≡ b.constant_data)
  unfolding place_function
  place_function-same f h = ground arith

pub build-pool :
    (b : Builder) (m : Module)
    → build b ≡ ok m
    → (m.constant_table ≡ b.constant_table) × (m.constant_data ≡ b.constant_data)
unfolding build
build-pool b m h = ground arith

Pools-trans : {b b' b'' : Builder} → Pools b b' → Pools b' b'' → Pools b b''
Pools-trans {b} p q = record {
  table = p.table ++ q.table;
  table_eq =
      q.table_eq
      ∙ ap (λ x. x ++ q.table) (p.table_eq)
      ∙ append_assoc (b.constant_table) (p.table) (q.table);
  bytes = p.bytes ++ q.bytes;
  bytes_eq =
      q.bytes_eq
      ∙ ap (λ x. x ++ q.bytes) (p.bytes_eq)
      ∙ append_assoc (b.constant_data) (p.bytes) (q.bytes);
}

-- A use adds constants at most, and leaves room for their handles.
abbrev Keeps : Builder → Builder → Type 0
Keeps b b' = HasRoom b → Pools b b' × HasRoom b'

kept :
    (b b' : Builder)
    → (b'.constant_table ≡ b.constant_table) × (b'.constant_data ≡ b.constant_data)
    → Keeps b b'
kept b b' e h = (same b b' e, subst (λ x. length x ≤ 65536) (sym (e.0)) h)

constant-Keeps :
    (b b' : Builder) (bytes : List ℕ) (k : ℕ) → constant bytes b ≡ ok (k, b') → Keeps b b'
constant-Keeps b b' bytes k e h =
    let (x, small, room) = subst (Fine bytes b) e (constant-Interned bytes b h) in
    (
      record {
        table = x.more_table;
        table_eq = x.table_eq;
        bytes = x.more_data;
        bytes_eq = x.data_eq;
      },
      room,
    )

Step-Keeps : {b b' : Builder} → Step b b' → Keeps b b'
unfolding make_label
Step-Keeps {b} {b'} (emits op a) = kept b b' (refl, refl)
Step-Keeps {b} {b'} exits = kept b b' (refl, refl)
Step-Keeps {b} {b'} (jumps t w e) = kept b b' (refl, refl)
Step-Keeps {b} {b'} (branches src t w e) = kept b b' (refl, refl)
Step-Keeps {b} {b'} (jumps_to_label l e) = kept b b' (emit_jmp_label-same b b' l e)
Step-Keeps {b} {b'} (branches_to_label src l e) = kept b b' (emit_jnz_label-same b b' src l e)
Step-Keeps {b} {b'} makes_label = kept b b' (refl, refl)
Step-Keeps {b} {b'} (places_label l e) = kept b b' (place_label-same b b' l e)
Step-Keeps {b} {b'} (declares name ts t n f e) =
    kept b b' (declare_function-same b b' name f n ts t e)
Step-Keeps {b} {b'} (places_function f e) = kept b b' (place_function-same b b' f e)
Step-Keeps {b} {b'} (interns bytes k e) = constant-Keeps b b' bytes k e

pub Steps-Keeps : {b b' : Builder} → Steps b b' → HasRoom b → Pools b b' × HasRoom b'
Steps-Keeps {b} done h = (same b b (refl, refl), h)
Steps-Keeps (next r s) h =
    let (p, room) = Steps-Keeps r h in
    let (q, room') = Step-Keeps s room in (Pools-trans p q, room')
