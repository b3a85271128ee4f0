-- ===== src/Spelling/Placed.antt =====
-- Buckets of a spelling table (code/spelling/include/spelling/spelling.h) in which the first handles
-- have been put.
use basedlang.Prelude.{ℕ, suc, ◌≤◌, ◌<◌, ◌≡◌, ◌≢◌, sym, ap, ◌∙◌, subst, List, text_eq_refl, arith}
use native.Mathlib.Decide.{ℕ_discrete}
use basedlang.Mask.{IsPower, IsPower-positive, mask-lt}
use basedlang.Hashing.{hash_text}
use basedlang.Spelling.Buckets.{Buckets, found, free, home, probe_home, assign, empty_buckets}
use basedlang.Spelling.Probing.{Outcome, probe-Outcome}
use basedlang.Spelling.Placing.{
  occupied, occupied-zero, occupied-vacant, occupied-assign, probe-assign_found, probe-assign_free,
  probe-agree,
}

-- The handles from one to `m` are in the buckets, some of which are free, and each is found by its text.
pub record Placed (text_of : ℕ → List ℕ) (m : ℕ) (b : Buckets) : Type 0 where
  pub power : IsPower (b.count)
  pub filled : occupied (b.count) (b.slots) ≡ m
  pub room : m < b.count
  pub bounded : (i : ℕ) → b.slots i ≤ m
  pub finds : (s : ℕ) → s ≢ 0 → s ≤ m → probe_home text_of (text_of s) b ≡ found s

home-lt : (text : List ℕ) (count : ℕ) → IsPower count → home text count < count
home-lt text count p = mask-lt p (hash_text text)

-- Where the handles from one to `m` are placed in more than `m` buckets, the probe for any text ends
-- within as many rounds as there are buckets: at a handle with this text, or at a free bucket.
pub Placed-Outcome :
    (text_of : ℕ → List ℕ) (m : ℕ) (b : Buckets) (text : List ℕ)
    → Placed text_of m b
    → Outcome text_of text b (probe_home text_of text b)
Placed-Outcome text_of m b text p =
    let (e, lt, z) = occupied-vacant (b.count) (b.slots) (omega (arith, p.filled, p.room)) in
    probe-Outcome text_of text b (p.power) e lt z (home text (b.count))
      (home-lt text (b.count) (p.power))

-- No handle is placed yet.
pub empty-Placed :
    (text_of : ℕ → List ℕ) (count : ℕ) → IsPower count → Placed text_of 0 (empty_buckets count)
empty-Placed text_of count p = record {
  power = p;
  filled = occupied-zero count;
  room = IsPower-positive p;
  bounded = λ i. omega arith;
  finds = λ s ns h. absurd (ns (omega arith));
}

-- The next handle is put where the probe for its text ends.
pub assign-Placed :
    (text_of : ℕ → List ℕ) (m : ℕ) (b : Buckets) (j : ℕ)
    → Placed text_of m b
    → suc m < b.count
    → j < b.count
    → b.slots j ≡ 0
    → probe_home text_of (text_of (suc m)) b ≡ free j
    → Placed text_of (suc m) (assign b j (suc m))
assign-Placed text_of m b j p room inside vacant ends = record {
  power = p.power;
  filled = occupied-assign (b.count) b j (suc m) inside vacant (omega arith) ∙ ap suc (p.filled);
  room = room;
  bounded = λ i. bounded i (p.bounded i);
  finds = finds;
}
  where
    bounded : (i : ℕ) → b.slots i ≤ m → (assign b j (suc m)).slots i ≤ suc m
    bounded i h = ground arith

    finds :
        (s : ℕ) → s ≢ 0 → s ≤ suc m → probe_home text_of (text_of s) (assign b j (suc m)) ≡ found s
    finds s ns h = elim (ℕ_discrete s (suc m)) [
      | yes e ↦
          subst (λ k. probe_home text_of (text_of k) (assign b j (suc m)) ≡ found k) (sym e)
            (probe-assign_free text_of (text_of (suc m)) b j (suc m) vacant (b.count)
              (home (text_of (suc m)) (b.count)) (omega arith) (text_eq_refl (text_of (suc m)))
              ends)
      | no ne ↦
          probe-assign_found text_of (text_of s) b j (suc m) vacant (b.count)
            (home (text_of s) (b.count)) s (p.finds s ns (omega arith))
    ]

-- What is placed depends on the texts of the handles that are.
pub Placed-agree :
    (f g : ℕ → List ℕ) (m : ℕ) (b : Buckets)
    → ((s : ℕ) → s ≢ 0 → s ≤ m → f s ≡ g s)
    → Placed f m b
    → Placed g m b
Placed-agree f g m b h p = record {
  power = p.power;
  filled = p.filled;
  room = p.room;
  bounded = p.bounded;
  finds = λ s ns le.
      subst (λ t. probe_home g t b ≡ found s) (h s ns le)
        (sym (
            probe-agree f g (f s) b (λ i ni. h (b.slots i) ni (p.bounded i)) (b.count)
              (home (f s) (b.count)))
          ∙ p.finds s ns le);
}
