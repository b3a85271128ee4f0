-- ===== src/Spelling/Placing.antt =====
-- Buckets of a spelling table (code/spelling/include/spelling/spelling.h) in which every text is found.
use basedlang.Prelude.{
  ℕ, zero, suc, ◌+◌, ◌≤◌, ◌<◌, ◌≡◌, ◌≢◌, refl, ap, true, ◌==◌, some, List, text_eq, if◌then◌else◌,
  arith, Bool-cases, inl, inr,
}
use basedlang.Spelling.Buckets.{Buckets, found, free, next_index, probe, place, assign}

-- How many of the first buckets have a handle.
abbrev pub occupied : ℕ → (ℕ → ℕ) → ℕ
occupied zero slots = 0
occupied (suc n) slots = occupied n slots + (if slots n == 0 then 0 else 1)

pub occupied-zero : (n : ℕ) → occupied n (λ _. 0) ≡ 0
occupied-zero zero = refl
occupied-zero (suc n) = ap (λ k. k + 0) (occupied-zero n)

pub occupied-vacant :
    (n : ℕ) (slots : ℕ → ℕ) → occupied n slots < n → (e : ℕ) × (e < n) × (slots e ≡ 0)
occupied-vacant zero slots h = absurd (omega arith)
occupied-vacant (suc n) slots h = elim (Bool-cases (slots n == 0)) [
  | inl z ↦ (n, omega arith, ground arith)
  | inr nz ↦ let (e, lt, z) = occupied-vacant n slots (ground arith) in (e, omega arith, z)
]

occupied-beyond :
    (n : ℕ) (b : Buckets) (j v : ℕ)
    → n ≤ j
    → occupied n ((assign b j v).slots) ≡ occupied n (b.slots)
occupied-beyond zero b j v h = refl
occupied-beyond (suc n) b j v h = ground (arith, occupied-beyond n b j v (omega arith))

pub occupied-assign :
    (n : ℕ) (b : Buckets) (j v : ℕ)
    → j < n
    → b.slots j ≡ 0
    → v ≢ 0
    → occupied n ((assign b j v).slots) ≡ suc (occupied n (b.slots))
occupied-assign zero b j v h z nv = absurd (omega arith)
occupied-assign (suc n) b j v h z nv = elim (Bool-cases (n == j)) [
  | inl e ↦ ground (arith, occupied-beyond n b j v)
  | inr e ↦ ground (arith, occupied-assign n b j v (ground arith) z nv)
]

module _ (text_of : ℕ → List ℕ) (text : List ℕ) (b : Buckets) (j v : ℕ)
    (vacant : b.slots j ≡ 0) where
  -- A handle that is found is found when another is put into a free bucket.
  pub probe-assign_found :
      (rounds index s : ℕ)
      → probe text_of rounds text b index ≡ found s
      → probe text_of rounds text (assign b j v) index ≡ found s
  unfolding probe
  probe-assign_found zero index s h = absurd (ground arith)
  probe-assign_found (suc rounds) index s h =
      ground (arith, h, probe-assign_found rounds (next_index b index) s)

  -- A handle that is put where the probe for its text ends is found there.
  pub probe-assign_free :
      (rounds index : ℕ)
      → v ≢ 0
      → text_eq (text_of v) text ≡ true
      → probe text_of rounds text b index ≡ free j
      → probe text_of rounds text (assign b j v) index ≡ found v
  unfolding probe
  probe-assign_free zero index nv t h = absurd (ground arith)
  probe-assign_free (suc rounds) index nv t h =
      ground (arith, h, probe-assign_free rounds (next_index b index) nv t)

-- Where a probe ends at a free bucket, so does the loop that looks for one.
pub place-probe :
    (text_of : ℕ → List ℕ) (text : List ℕ) (b : Buckets) (j rounds index : ℕ)
    → probe text_of rounds text b index ≡ free j
    → place rounds b index ≡ some j
unfolding probe place
place-probe text_of text b j zero index h = absurd (ground arith)
place-probe text_of text b j (suc rounds) index h =
    ground (arith, h, place-probe text_of text b j rounds (next_index b index))

-- A probe looks at the texts of handles in buckets only.
pub probe-agree :
    (f g : ℕ → List ℕ) (text : List ℕ) (b : Buckets)
    → ((i : ℕ) → b.slots i ≢ 0 → f (b.slots i) ≡ g (b.slots i))
    → (rounds index : ℕ) → probe f rounds text b index ≡ probe g rounds text b index
unfolding probe
probe-agree f g text b h zero index = refl
probe-agree f g text b h (suc rounds) index = elim (Bool-cases (b.slots index == 0)) [
  | inl z ↦ rw (z, probe) refl
  | inr nz ↦
      rw (nz, h index (ground arith), probe-agree f g text b h rounds (next_index b index), probe)
        refl
]
