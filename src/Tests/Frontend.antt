-- ===== src/Tests/Frontend.antt =====
-- The symbol table at concrete inputs.
use basedlang.Prelude.{ℕ, ◌≡◌, refl, true, false, none, some, List, [], ◌∷◌, ◌++◌, get_elem?, arith}
use basedlang.Frontend.SymbolTable.{
  Binding, Symbol, SymbolTable, new, declare, lookup_in, lookup, push_scope, pop_scope,
}
use basedlang.Frontend.Scoping.{
  Balanced, first_symbol, lookup-visible, lookup-declare, pop_scope-Balanced,
}

-- The name 7 in the global scope, and a scope around a barrier.
abbrev globals : SymbolTable ℕ ℕ
globals = (declare 7 (Binding.value 1) new).1

abbrev local : SymbolTable ℕ ℕ
local = (declare 8 (Binding.value 2) (push_scope false globals)).1

lookup-declare_example :
    (get_elem? ((declare 9 (Binding.value 3) local).1.owned) (declare 9 (Binding.value 3) local).0
      ≡ some (record { name = 9; data_of = Binding.value 3 }))
    × (lookup (declare 9 (Binding.value 3) local).1 9 ≡ some (declare 9 (Binding.value 3) local).0)
    × (lookup (declare 9 (Binding.value 3) local).1 8 ≡ lookup local 8)
lookup-declare_example = lookup-declare local 9 8 (Binding.value 3) (omega arith)

abbrev inner : SymbolTable ℕ ℕ
inner = (declare 8 (Binding.object 4 true 5) (push_scope true local)).1

pop_scope-Balanced_example :
    (v : SymbolTable ℕ ℕ) × (pop_scope inner ≡ some v)
    × ((name : ℕ) → lookup v name ≡ lookup local name)
    × (more : List (Symbol ℕ ℕ)) × (v.owned ≡ local.owned ++ more)
pop_scope-Balanced_example = pop_scope-Balanced local inner true (
    Balanced.declared (push_scope true local) (push_scope true local) 8 (Binding.object 4 true 5)
      (Balanced.done (push_scope true local)))

-- The barrier hides the local name, and not the global one.
barrier :
    lookup (push_scope true local) 8
      ∷ lookup (push_scope true local) 7
      ∷ lookup (push_scope false local) 8
      ∷ []
    ≡ none ∷ some 0 ∷ some 1 ∷ []
unfolding declare lookup_in
barrier = refl

lookup-visible_example :
    lookup (push_scope true local) 8 ≡ first_symbol (globals.global_scope ∷ []) 8
unfolding declare
lookup-visible_example = lookup-visible (push_scope true local) 8
