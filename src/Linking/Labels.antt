-- ===== src/Linking/Labels.antt =====
-- The labels of a module builder when one is made or placed (code/bytecode/src/module_builder.cpp).
use basedlang.Prelude.{
  ℕ, zero, suc, ◌+◌, ◌≤◌, ◌≡◌, ◌≢◌, sym, ap, ◌∙◌, subst, Option, some, none, List, [], ◌∷◌, ◌++◌,
  get_elem?, set, arith, get_elem?-append, lt-of_get_elem?, length-append, length-set,
  get_elem?-set_self, get_elem?-set_ne,
}
use native.Mathlib.Decide.{ℕ_discrete}
use basedlang.Bytecode.Relocation.{Ordered, Ordered-le}
use basedlang.Bytecode.Building.{Forward}

some-some-injective : {a b : ℕ} → some (some a) ≡ some (some b) → a ≡ b
some-some-injective h = cc

pub placed_before_make :
    (labels : List (Option ℕ)) (l t : ℕ)
    → get_elem? (labels ++ none ∷ []) l ≡ some (some t)
    → get_elem? labels l ≡ some (some t)
placed_before_make [] zero t e = cc
placed_before_make [] (suc l) t e = cc
placed_before_make (x ∷ labels) zero t e = e
placed_before_make (x ∷ labels) (suc l) t e = placed_before_make labels l t e

module _ (labels : List (Option ℕ)) where
  -- A new label, which is not placed.
  pub kept_make :
      (l t : ℕ)
      → get_elem? labels l ≡ some (some t)
      → get_elem? (labels ++ none ∷ []) l ≡ some (some t)
  kept_make l t e = get_elem?-append labels (none ∷ []) l (lt-of_get_elem? labels l (some t) e) ∙ e

  pub Forward-make : (us : List (ℕ × ℕ)) → Forward labels us → Forward (labels ++ none ∷ []) us
  Forward-make [] f = tt
  Forward-make ((p, l) ∷ us) f = (
    omega (arith, f.0, length-append labels (none ∷ [])),
    λ t e. f.1 t (sym (get_elem?-append labels (none ∷ []) l (f.0)) ∙ e),
    Forward-make us (f.2),
  )

  -- A label placed at a position.
  pub bound_place :
      (l pos : ℕ)
      → get_elem? labels l ≡ some none
      → ((k t : ℕ) → get_elem? labels k ≡ some (some t) → t ≤ pos)
      → (k t : ℕ) → get_elem? (set labels l (some pos)) k ≡ some (some t)
      → t ≤ pos
  bound_place l pos o f k t e = elim (ℕ_discrete l k) [
    | yes same ↦
        let here = get_elem?-set_self labels l (some pos) (lt-of_get_elem? labels l none o) in
        subst (λ n. n ≤ pos)
          (some-some-injective (sym here ∙ ap (get_elem? (set labels l (some pos))) same ∙ e))
          (omega arith)
    | no ne ↦ f k t (sym (get_elem?-set_ne labels (some pos) ne) ∙ e)
  ]

  pub kept_place :
      (l pos k t : ℕ)
      → get_elem? labels l ≡ some none
      → get_elem? labels k ≡ some (some t)
      → get_elem? (set labels l (some pos)) k ≡ some (some t)
  kept_place l pos k t open_l placed_k = get_elem?-set_ne labels (some pos) other ∙ placed_k
    where
      other : l ≢ k
      other e = cc (ap (get_elem? labels) e)

  placed_bound :
      (p l pos k : ℕ)
      → get_elem? labels l ≡ some none
      → p + 2 ≤ pos
      → ((t : ℕ) → get_elem? labels k ≡ some (some t) → p + 2 ≤ t)
      → (t : ℕ) → get_elem? (set labels l (some pos)) k ≡ some (some t)
      → p + 2 ≤ t
  placed_bound p l pos k o le f t e = elim (ℕ_discrete l k) [
    | yes same ↦
        let here = get_elem?-set_self labels l (some pos) (lt-of_get_elem? labels l none o) in
        subst (λ n. p + 2 ≤ n)
          (some-some-injective (sym here ∙ ap (get_elem? (set labels l (some pos))) same ∙ e)) le
    | no ne ↦ f t (sym (get_elem?-set_ne labels (some pos) ne) ∙ e)
  ]

  pub Forward-place :
      (l pos lo : ℕ) (us : List (ℕ × ℕ))
      → get_elem? labels l ≡ some none
      → Ordered lo us pos
      → Forward labels us
      → Forward (set labels l (some pos)) us
  Forward-place l pos lo [] o h f = tt
  Forward-place l pos lo ((p, k) ∷ us) o h f = (
    omega (arith, f.0, length-set labels l (some pos)),
    placed_bound p l pos k o (Ordered-le (p + 2) us pos (h.1)) (f.1),
    Forward-place l pos (p + 2) us o (h.1) (f.2),
  )
