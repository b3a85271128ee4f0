-- ===== src/Spelling/Lookups.antt =====
-- The two lookups of a spelling table (code/spelling/include/spelling/spelling.h) against each other.
use basedlang.Prelude.{
  ℕ, ◌-◌, ◌≤◌, ◌≡◌, ◌≢◌, ◌==◌, ◌↔◌, refl, sym, ap, ◌∙◌, subst, false, Option, none, some, List,
  length, get_elem?, lt-of_get_elem?, get_elem?-lt, arith, some-injective, ◌⊎◌, inl, inr,
  Bool-cases,
}
use native.Mathlib.Decide.{ℕ_discrete}
use basedlang.Spelling.Buckets.{found, free, probe_home}
use basedlang.Spelling.Probing.{Outcome, at_handle, at_free}
use basedlang.Spelling.Placed.{Placed-Outcome}
use basedlang.Spelling.Table.{Entry, Table, text_of, lookup, lookup_text}
use basedlang.Spelling.Valid.{IsValid}
use basedlang.Spelling.Refill.{found-injective}

pub apart_found : (s j : ℕ) → free j ≢ found s
apart_found s j h = ground arith

module _ (t : Table) where
  abbrev f : ℕ → List ℕ
  f = text_of (t.bytes) (t.entries)

  lookup-some :
      (s : ℕ) (e : Entry) → s ≢ 0 → get_elem? (t.entries) (s - 1) ≡ some e → lookup t s ≡ some (f s)
  unfolding lookup
  lookup-some s e ns q = rw (nonzero, q, lookup) refl
    where
      nonzero : (s == 0) ≡ false
      nonzero = ground arith

  lookup-none : (s : ℕ) → (s ≡ 0) ⊎ (get_elem? (t.entries) (s - 1) ≡ none) → lookup t s ≡ none
  unfolding lookup
  lookup-none s (inl z) = rw (z, lookup) refl
  lookup-none s (inr q) = elim (Bool-cases (s == 0)) [
    | inl z ↦ rw (z, lookup) refl
    | inr nz ↦ rw (nz, q, lookup) refl
  ]

  -- What `lookup` gives is the text of a handle of the table.
  pub lookup-text_of :
      (s : ℕ) (x : List ℕ)
      → (lookup t s ≡ some x) ↔ ((s ≢ 0) × (s ≤ length (t.entries)) × (f s ≡ x))
  lookup-text_of s x = (
    λ h. to h (ℕ_discrete s 0) (get_elem? (t.entries) (s - 1)) refl,
    λ h.
        let (e, q) = get_elem?-lt (t.entries) (s - 1) (omega (arith, h.0, h.1)) in
        lookup-some s e h.0 q ∙ ap some (h.2),
  )
    where
      to :
          lookup t s ≡ some x
          → Dec (s ≡ 0)
          → (o : Option Entry) → get_elem? (t.entries) (s - 1) ≡ o
          → (s ≢ 0) × (s ≤ length (t.entries)) × (f s ≡ x)
      to h (yes z) o q = absurd (cc (h, lookup-none s (inl z)))
      to h (no nz) none q = absurd (cc (h, lookup-none s (inr q)))
      to h (no nz) (some e) q = (
        nz,
        omega (arith, lt-of_get_elem? (t.entries) (s - 1) e q),
        some-injective (f s) x (sym (lookup-some s e nz q) ∙ h),
      )

  -- In a well-formed table the lookup of a text ends, and the handle that it gives is the one whose
  -- text this is; where it gives zero no handle has the text.
  pub lookup_text-lookup :
      (text : List ℕ)
      → IsValid t
      → (s : ℕ) × (lookup_text t text ≡ some s)
        × ((k : ℕ) → (lookup t k ≡ some text) ↔ ((k ≡ s) × (k ≢ 0)))
  unfolding lookup_text
  lookup_text-lookup text v = go (Placed-Outcome f (length (t.entries)) (t.buckets) text (v.placed))
    where
      -- A handle's text is found under it.
      to : (k : ℕ) → lookup t k ≡ some text → probe_home f text (t.buckets) ≡ found k
      to k h =
          let (nk, le, e) = (lookup-text_of k text).0 h in
          subst (λ x. probe_home f x (t.buckets) ≡ found k) e (v.placed.finds k nk le)

      go :
          Outcome f text (t.buckets) (probe_home f text (t.buckets))
          → (s : ℕ) × (lookup_text t text ≡ some s)
            × ((k : ℕ) → (lookup t k ≡ some text) ↔ ((k ≡ s) × (k ≢ 0)))
      go (at_handle s i ns q e p) = (
        s,
        rw (p, lookup_text) refl,
        λ k. (
          λ h. (found-injective k s (sym (to k h) ∙ p), ((lookup-text_of k text).0 h).0),
          λ h. (lookup-text_of k text).1 (
            h.1,
            subst (λ n. n ≤ length (t.entries)) (q ∙ sym h.0) (v.placed.bounded i),
            ap f h.0 ∙ e,
          ),
        ),
      )
      go (at_free j lt z p) = (
        0,
        rw (p, lookup_text) refl,
        λ k. (λ h. absurd (apart_found k j (sym p ∙ to k h)), λ h. absurd (h.1 h.0)),
      )
