-- ===== src/Spelling/Probing.antt =====
-- Probing the buckets of a spelling table (code/spelling/include/spelling/spelling.h): where it ends.
use basedlang.Prelude.{
  ℕ, zero, suc, ◌+◌, ◌-◌, ◌<◌, ◌≡◌, ◌≢◌, refl, sym, ap, subst, false, leb, ◌==◌, List, text_eq,
  text_eq-Path, if◌then◌else◌, arith, Bool-cases, inl, inr,
}
use basedlang.Mask.{IsPower, IsPower-positive, wrapped, mask}
use basedlang.Spelling.Buckets.{Buckets, Probe, found, free, next_index, probe}

-- How many steps it takes from an index to another.
abbrev ahead : ℕ → ℕ → ℕ → ℕ
ahead count index e = if leb index e then e - index else e + count - index

ahead-next :
    (count index e : ℕ)
    → index < count
    → e < count
    → index ≢ e
    → suc (ahead count (wrapped count (index + 1)) e) ≡ ahead count index e
ahead-next count index e i h ne = ground arith

ahead-lt : (count index e : ℕ) → index < count → e < count → ahead count index e < count
ahead-lt count index e i h = ground arith

next_index-wrapped :
    (b : Buckets) (index : ℕ)
    → IsPower (b.count)
    → index < b.count
    → next_index b index ≡ wrapped (b.count) (index + 1)
next_index-wrapped b index p i = mask p (index + 1) (omega arith)

next_index-lt :
    (b : Buckets) (index : ℕ) → IsPower (b.count) → index < b.count → next_index b index < b.count
next_index-lt b index p i =
    subst (λ k. k < b.count) (sym (next_index-wrapped b index p i))
      (ground (arith, IsPower-positive p))

-- Where a probe for a text may end.
pub data Outcome (text_of : ℕ → List ℕ) (text : List ℕ) (b : Buckets) (p : Probe) : Type 0 where
  at_handle :
      (s i : ℕ) → s ≢ 0 → b.slots i ≡ s → text_of s ≡ text → p ≡ found s → Outcome text_of text b p
  at_free : (j : ℕ) → j < b.count → b.slots j ≡ 0 → p ≡ free j → Outcome text_of text b p

module _ (text_of : ℕ → List ℕ) (text : List ℕ) (b : Buckets) (power : IsPower (b.count)) where
  -- Some bucket `e` has no handle.
  module _ (e : ℕ) (inside : e < b.count) (vacant : b.slots e ≡ 0) where
    probe-ends :
        (rounds index : ℕ)
        → index < b.count
        → ahead (b.count) index e < rounds
        → Outcome text_of text b (probe text_of rounds text b index)
    unfolding probe
    probe-ends zero index i h = absurd (omega arith)
    probe-ends (suc rounds) index i h = elim (Bool-cases (b.slots index == 0)) [
      | inl z ↦ Outcome.at_free index i (ground arith) (rw (z, probe) refl)
      | inr nz ↦ elim (Bool-cases (text_eq (text_of (b.slots index)) text)) [
        | inl t ↦
            Outcome.at_handle (b.slots index) index (ground arith) refl
              (text_eq-Path (text_of (b.slots index)) text t) (rw (nz, t, probe) refl)
        | inr t ↦
            rw (nz, t, probe)
              (probe-ends rounds (next_index b index) (next_index-lt b index power i)
                (closer (apart nz)))
      ]
    ]
      where
        apart : (b.slots index == 0) ≡ false → index ≢ e
        apart nz q = ground (arith, ap (b.slots) q)

        closer : index ≢ e → ahead (b.count) (next_index b index) e < rounds
        closer ne =
            subst (λ k. ahead (b.count) k e < rounds) (sym (next_index-wrapped b index power i))
              (omega (arith, ahead-next (b.count) index e i inside ne))

    -- As many rounds as there are buckets are enough.
    pub probe-Outcome :
        (index : ℕ)
        → index < b.count
        → Outcome text_of text b (probe text_of (b.count) text b index)
    probe-Outcome index i = probe-ends (b.count) index i (ahead-lt (b.count) index e i inside)
