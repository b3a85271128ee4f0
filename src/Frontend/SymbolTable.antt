-- ===== src/Frontend/SymbolTable.antt =====
-- `Symbol_table` (code/frontend/src/symbol_table.cpp, code/frontend/include/frontend/symbol_table.h). A
-- symbol is named by its place among those that the table owns; types and constants are parameters.
use basedlang.Prelude.{
  ℕ, ◌==◌, Bool, Option, none, some, List, [], ◌∷◌, ◌++◌, length, if◌then◌else◌,
}

-- `Object_binding`, or a constant's value
pub data Binding (Ty Value : Type 0) : Type 0 where
  object : (type : Ty) (is_mutable : Bool) (reg : ℕ) → Binding Ty Value
  value : Value → Binding Ty Value

pub record Symbol (Ty Value : Type 0) : Type 0 where
  pub name : ℕ
  pub data_of : Binding Ty Value

-- An `std::unordered_map` from spellings
abbrev pub Symbols : Type 0
Symbols = ℕ → Option ℕ

abbrev pub insert_or_assign : Symbols → ℕ → ℕ → Symbols
insert_or_assign symbols name sym = λ n. if n == name then some sym else symbols n

pub record Scope : Type 0 where
  pub symbols : Symbols
  pub is_barrier : Bool

-- The scopes from the innermost, which is the last of the vector.
pub record SymbolTable (Ty Value : Type 0) : Type 0 where
  pub owned : List (Symbol Ty Value)
  pub global_scope : Symbols
  pub scopes : List Scope

-- The loop of `lookup`, and what follows it.
unfoldable pub lookup_in : Symbols → List Scope → ℕ → Option ℕ
lookup_in global_scope [] name = global_scope name
lookup_in global_scope (s ∷ rest) name = elim (s.symbols name) [
  | some sym ↦ some sym
  | none ↦
      let outer = lookup_in global_scope rest name in
      if s.is_barrier then global_scope name else outer
]

module _ {Ty Value : Type 0} where
  abbrev pub new : SymbolTable Ty Value
  new = record { owned = []; global_scope = λ _. none; scopes = [] }

  -- What the two functions that declare have in common, and these: the new symbol, and the table.
  unfoldable pub declare : ℕ → Binding Ty Value → SymbolTable Ty Value → ℕ × SymbolTable Ty Value
  declare name binding t =
      let sym = length (t.owned) in
      let owned = t.owned ++ (record { name = name; data_of = binding }) ∷ [] in
      elim (t.scopes) [
        | [] ↦ (
          sym,
          record t { owned = owned; global_scope = insert_or_assign (t.global_scope) name sym },
        )
        | s ∷ rest ↦ (
          sym,
          record t {
            owned = owned;
            scopes = (record s { symbols = insert_or_assign (s.symbols) name sym }) ∷ rest;
          },
        )
      ]

  abbrev pub declare_object : ℕ → Ty → Bool → ℕ → SymbolTable Ty Value → ℕ × SymbolTable Ty Value
  declare_object name type is_mutable reg = declare name (Binding.object type is_mutable reg)

  abbrev pub declare_value : ℕ → Value → SymbolTable Ty Value → ℕ × SymbolTable Ty Value
  declare_value name v = declare name (Binding.value v)

  abbrev pub lookup : SymbolTable Ty Value → ℕ → Option ℕ
  lookup t name = lookup_in (t.global_scope) (t.scopes) name

  abbrev pub push_scope : Bool → SymbolTable Ty Value → SymbolTable Ty Value
  push_scope is_barrier t = record t {
    scopes = (record { symbols = λ _. none; is_barrier = is_barrier }) ∷ t.scopes;
  }

  -- None where the vector is empty, which `pop_back` must not meet.
  unfoldable pub pop_scope : SymbolTable Ty Value → Option (SymbolTable Ty Value)
  pop_scope t = elim (t.scopes) [ [] ↦ none | s ∷ rest ↦ some (record t { scopes = rest }) ]
