-- ===== src/Tests/Spelling.antt =====
-- The spelling table at concrete inputs.
use basedlang.Prelude.{ℕ, ◌≡◌, ◌≢◌, ◌↔◌, refl, Option, none, some, List, [], ◌∷◌, arith}
use basedlang.Hashing.{hash_text, mix}
use basedlang.Spelling.Buckets.{probe, probe_home, place}
use basedlang.Spelling.Probing.{Outcome}
use basedlang.Spelling.Placed.{Placed-Outcome}
use basedlang.Spelling.Table.{
  Table, text_of, new, lookup, lookup_text, refill, make_room, intern, builder, append, finalize,
}
use basedlang.Spelling.Valid.{new-IsValid}
use basedlang.Spelling.Interning.{Interned, intern-Interned}
use basedlang.Spelling.Lookups.{lookup_text-lookup}
use basedlang.Spelling.Building.{finalize-intern}

abbrev ab : List ℕ
ab = b'a' ∷ b'b' ∷ []

Placed-Outcome_example :
    Outcome (text_of [] []) ab (new.buckets) (probe_home (text_of [] []) ab (new.buckets))
unfolding new
Placed-Outcome_example = Placed-Outcome (text_of [] []) 0 (new.buckets) ab (new-IsValid.placed)

intern-Interned_example :
    (s : ℕ) × (t : Table) × (intern new ab ≡ some (s, t)) × Interned new ab s t
unfolding new
intern-Interned_example = intern-Interned new ab new-IsValid (omega arith) (omega arith)

lookup_text-lookup_example :
    (s : ℕ) × (lookup_text new ab ≡ some s)
    × ((k : ℕ) → (lookup new k ≡ some ab) ↔ ((k ≡ s) × (k ≢ 0)))
lookup_text-lookup_example = lookup_text-lookup new ab new-IsValid

finalize-intern_example : finalize (append (builder new) ab) ≡ intern (builder new) ab
unfolding new
finalize-intern_example = finalize-intern new ab new-IsValid (omega arith)

-- The hash that FNV-1a gives for `a`.
hash_a : hash_text (b'a' ∷ []) ≡ 0xaf63dc4c8601ec8c
unfolding hash_text mix
hash_a = refl

abbrev handle : Option (ℕ × Table) → ℕ
handle none = 0
handle (some r) = r.0

abbrev table : Option (ℕ × Table) → Table
table none = new
table (some r) = r.1

-- A text gets its handle again, and another text another handle.
interned :
    handle (intern (table (intern new ab)) ab)
      ∷ handle (intern (table (intern new ab)) (b'c' ∷ []))
      ∷ []
    ≡ 1 ∷ 2 ∷ []
unfolding new intern probe make_room refill place hash_text mix
interned = refl
