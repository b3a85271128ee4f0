-- ===== src/Frontend/Scoping.antt =====
-- What the scopes of a symbol table (code/frontend/src/symbol_table.cpp) do to lookups.
use basedlang.Prelude.{
  ℕ, ◌≡◌, ◌≢◌, refl, sym, ap, ◌∙◌, subst, Bool, Option, none, some, List, [], ◌∷◌, ◌++◌, length,
  get_elem?, get_elem?-append-length, append_assoc, append-nil, if◌then◌else◌, arith,
  some-injective,
}
use basedlang.Frontend.SymbolTable.{
  Binding, Symbol, Symbols, Scope, SymbolTable, insert_or_assign, declare, lookup_in, lookup,
  push_scope, pop_scope,
}

-- The scopes that a lookup sees: up to the first barrier, and the global scope.
abbrev pub visible : Symbols → List Scope → List Symbols
visible global_scope [] = global_scope ∷ []
visible global_scope (s ∷ rest) =
    s.symbols ∷ (if s.is_barrier then global_scope ∷ [] else visible global_scope rest)

-- The first symbol that a list of scopes has for a name.
abbrev pub first_symbol : List Symbols → ℕ → Option ℕ
first_symbol [] name = none
first_symbol (m ∷ ms) name = elim (m name) [ some sym ↦ some sym | none ↦ first_symbol ms name ]

lookup_in-visible :
    (g : Symbols) (scopes : List Scope) (name : ℕ)
    → lookup_in g scopes name ≡ first_symbol (visible g scopes) name
unfolding lookup_in
lookup_in-visible g [] name = ground arith
lookup_in-visible g (s ∷ rest) name = ground (arith, lookup_in-visible g rest name)

module _ {Ty Value : Type 0} where
  -- A lookup gives the symbol of the innermost scope that has one, among those up to the first barrier
  -- and the global scope.
  pub lookup-visible :
      (t : SymbolTable Ty Value) (name : ℕ)
      → lookup t name ≡ first_symbol (visible (t.global_scope) (t.scopes)) name
  lookup-visible t name = lookup_in-visible (t.global_scope) (t.scopes) name

  -- After a declaration its name means the new symbol, which has the binding, and other names mean what
  -- they did.
  pub lookup-declare :
      (t : SymbolTable Ty Value) (name other : ℕ) (b : Binding Ty Value)
      → other ≢ name
      → (get_elem? ((declare name b t).1.owned) (declare name b t).0
          ≡ some (record { name = name; data_of = b }))
        × (lookup (declare name b t).1 name ≡ some (declare name b t).0)
        × (lookup (declare name b t).1 other ≡ lookup t other)
  unfolding declare lookup_in
  lookup-declare t name other b ne = go (t.scopes) refl
    where
      go :
          (scopes : List Scope)
          → t.scopes ≡ scopes
          → (get_elem? ((declare name b t).1.owned) (declare name b t).0
              ≡ some (record { name = name; data_of = b }))
            × (lookup (declare name b t).1 name ≡ some (declare name b t).0)
            × (lookup (declare name b t).1 other ≡ lookup t other)
      go [] e =
          rw (e, declare)
            (
              get_elem?-append-length (t.owned) [] (record { name = name; data_of = b }),
              ground arith,
              ground arith,
            )
      go (s ∷ rest) e =
          rw (e, declare)
            (
              get_elem?-append-length (t.owned) [] (record { name = name; data_of = b }),
              ground arith,
              ground arith,
            )

  -- Uses of a table that leave as many scopes as there were.
  pub data Balanced : SymbolTable Ty Value → SymbolTable Ty Value → Type 0 where
    done : (t : SymbolTable Ty Value) → Balanced t t
    declared :
        (t t' : SymbolTable Ty Value) (name : ℕ) (b : Binding Ty Value)
        → Balanced t t'
        → Balanced t ((declare name b t').1)
    scoped :
        (t t' u v : SymbolTable Ty Value) (is_barrier : Bool)
        → Balanced t t'
        → Balanced (push_scope is_barrier t') u
        → pop_scope u ≡ some v
        → Balanced t v

  -- What uses inside a scope leave as it was: the scopes around it, the global scope, and the symbols.
  record Kept (t t' : SymbolTable Ty Value) (rest : List Scope) : Type 0 where
    inner : Scope
    scopes_eq : t'.scopes ≡ inner ∷ rest
    global_eq : t'.global_scope ≡ t.global_scope
    more : List (Symbol Ty Value)
    owned_eq : t'.owned ≡ t.owned ++ more

  declare-Kept :
      (t t' : SymbolTable Ty Value) (rest : List Scope) (name : ℕ) (b : Binding Ty Value)
      → Kept t t' rest
      → Kept t (declare name b t').1 rest
  unfolding declare
  declare-Kept t t' rest name b k = record {
    inner = record (k.inner) {
      symbols = insert_or_assign (k.inner.symbols) name (length (t'.owned));
    };
    scopes_eq = rw (k.scopes_eq, declare) refl;
    global_eq = rw (k.scopes_eq, declare) (k.global_eq);
    more = k.more ++ (record { name = name; data_of = b }) ∷ [];
    owned_eq =
        rw (k.scopes_eq, declare)
          (ap (λ xs. xs ++ (record { name = name; data_of = b }) ∷ []) (k.owned_eq)
            ∙ append_assoc (t.owned) (k.more) ((record { name = name; data_of = b }) ∷ []));
  }

  -- The table that a scope's end leaves.
  popped :
      (t t' : SymbolTable Ty Value) (rest : List Scope)
      → Kept t t' rest
      → pop_scope t' ≡ some (record t' { scopes = rest })
  unfolding pop_scope
  popped t t' rest k = rw (k.scopes_eq, pop_scope) refl

  Balanced-Kept :
      (t : SymbolTable Ty Value) (s : Scope) (rest : List Scope)
      → t.scopes ≡ s ∷ rest
      → (t' : SymbolTable Ty Value) → Balanced t t'
      → Kept t t' rest
  Balanced-Kept t s rest e _ (Balanced.done _) = record {
    inner = s;
    scopes_eq = e;
    global_eq = refl;
    more = [];
    owned_eq = sym (append-nil (t.owned));
  }
  Balanced-Kept t s rest e _ (Balanced.declared _ t' name b run) =
      declare-Kept t t' rest name b (Balanced-Kept t s rest e t' run)
  Balanced-Kept t s rest e _ (Balanced.scoped _ t' u v is_barrier run inside ends) =
      closed (Balanced-Kept t s rest e t' run) (
        Balanced-Kept (push_scope is_barrier t')
          (record { symbols = λ _. none; is_barrier = is_barrier }) (t'.scopes) refl u inside)
    where
      closed : Kept t t' rest → Kept (push_scope is_barrier t') u (t'.scopes) → Kept t v rest
      closed k l =
          subst (λ v. Kept t v rest)
            (some-injective (record u { scopes = t'.scopes }) v
              (sym (popped (push_scope is_barrier t') u (t'.scopes) l) ∙ ends))
            (record {
              inner = k.inner;
              scopes_eq = k.scopes_eq;
              global_eq = l.global_eq ∙ k.global_eq;
              more = k.more ++ l.more;
              owned_eq =
                  l.owned_eq
                  ∙ ap (λ xs. xs ++ l.more) (k.owned_eq)
                  ∙ append_assoc (t.owned) (k.more) (l.more);
            })

  -- Whatever is declared in a scope, and in scopes that are opened and closed in it, the end of the scope
  -- succeeds, every name then means what it did before the scope, and the symbols from before are kept.
  pub pop_scope-Balanced :
      (t u : SymbolTable Ty Value) (is_barrier : Bool)
      → Balanced (push_scope is_barrier t) u
      → (v : SymbolTable Ty Value) × (pop_scope u ≡ some v)
        × ((name : ℕ) → lookup v name ≡ lookup t name)
        × (more : List (Symbol Ty Value)) × (v.owned ≡ t.owned ++ more)
  pop_scope-Balanced t u is_barrier run =
      let k =
        Balanced-Kept (push_scope is_barrier t)
          (record { symbols = λ _. none; is_barrier = is_barrier }) (t.scopes) refl u run in
      (
        record u { scopes = t.scopes },
        popped (push_scope is_barrier t) u (t.scopes) k,
        λ name. ap (λ g. lookup_in g (t.scopes) name) (k.global_eq),
        k.more,
        k.owned_eq,
      )
