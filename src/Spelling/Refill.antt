-- ===== src/Spelling/Refill.antt =====
-- Growth of a spelling table (`rehash` in code/spelling/include/spelling/spelling.h).
use basedlang.Prelude.{
  ℕ, zero, suc, ◌+◌, ◌*◌, ◌^◌, ◌≤◌, ◌<◌, ◌≡◌, ◌≢◌, refl, sym, ap, ◌∙◌, subst, ltb, some, List,
  length, arith, inl, inr, Bool-cases,
}
use basedlang.Mask.{IsPower, double}
use basedlang.Spelling.Buckets.{Buckets, found, free, home, probe_home, place, assign}
use basedlang.Spelling.Probing.{Outcome, at_handle, at_free}
use basedlang.Spelling.Placing.{place-probe}
use basedlang.Spelling.Placed.{Placed, Placed-Outcome, empty-Placed, assign-Placed}
use basedlang.Spelling.Table.{Entry, text_of, refill, make_room}

pub found-injective : (s i : ℕ) → found s ≡ found i → s ≡ i
found-injective s i h = ground (arith, h)

-- A free bucket for a text that is not in the table yet.
pub record Room (f : ℕ → List ℕ) (m : ℕ) (text : List ℕ) (b : Buckets) (j : ℕ) : Type 0 where
  pub placed : Placed f m b
  pub inside : j < b.count
  pub vacant : b.slots j ≡ 0
  pub ends : probe_home f text b ≡ free j

module _ (f : ℕ → List ℕ) (m : ℕ) (text : List ℕ) (b : Buckets) (p : Placed f m b) where
  -- A text that no handle has is probed for to a free bucket, where also `place` ends.
  pub place-Room :
      ((s : ℕ) → s ≢ 0 → s ≤ m → f s ≢ text)
      → (j : ℕ) × (place (b.count) b (home text (b.count)) ≡ some j) × Room f m text b j
  place-Room other = go (Placed-Outcome f m b text p)
    where
      go :
          Outcome f text b (probe_home f text b)
          → (j : ℕ) × (place (b.count) b (home text (b.count)) ≡ some j) × Room f m text b j
      go (at_handle s i ns e t q) = absurd (other s ns (subst (λ k. k ≤ m) e (p.bounded i)) t)
      go (at_free j lt z q) = (
        j,
        place-probe f text b j (b.count) (home text (b.count)) q,
        record { placed = p; inside = lt; vacant = z; ends = q },
      )

module _ (bytes : List ℕ) (entries : List Entry) (old : Buckets)
    (p : Placed (text_of bytes entries) (length entries) old) (fit : length entries < 2 ^ 32) where
  abbrev f : ℕ → List ℕ
  f = text_of bytes entries

  -- Different handles have different texts.
  pub apart :
      (s i : ℕ) → s ≢ 0 → i ≢ 0 → s ≤ length entries → i ≤ length entries → s ≢ i → f s ≢ f i
  apart s i ns ni hs hi ne e = ne (
      found-injective s i
        (sym (p.finds s ns hs) ∙ ap (λ t. probe_home f t old) e ∙ p.finds i ni hi))

  pub refill-Placed :
      (count : ℕ)
      → IsPower count
      → length entries < count
      → (i : ℕ) → i ≤ length entries
      → (b : Buckets) × (refill bytes entries count i ≡ some b) × (b.count ≡ count) × Placed f i b
  unfolding refill
  refill-Placed count power room zero le = (_, refl, refl, empty-Placed f count power)
  refill-Placed count power room (suc i) le =
      let (b, e, c, q) = refill-Placed count power room i (omega arith) in
      let (j, w, r) =
        place-Room f i (f (suc i)) b q
          (λ s ns h. apart s (suc i) ns (omega arith) (omega arith) le (omega arith)) in
      (
        assign b j (suc i),
        rw (e, w, refill) (ap (λ v. some (assign b j v)) (omega arith)),
        c,
        assign-Placed f i b j q (omega arith) (r.inside) (r.vacant) (r.ends),
      )

  -- There is room for one more text, in the old buckets or in twice as many.
  pub make_room-Room :
      (text : List ℕ) (index : ℕ)
      → Room f (length entries) text old index
      → ((s : ℕ) → s ≢ 0 → s ≤ length entries → f s ≢ text)
      → (b : Buckets) × (j : ℕ) × (make_room bytes entries old text index ≡ some (b, j))
        × (suc (length entries) * 3 ≤ b.count * 2)
        × Room f (length entries) text b j
  unfolding make_room
  make_room-Room text index r other =
      elim (Bool-cases (ltb (old.count * 2) ((length entries + 1) * 3))) [
        | inl full ↦
            let (b, e, c, q) =
              refill-Placed (old.count * 2)
                (subst IsPower (omega arith) (double (old.count) (p.power))) (omega (arith, p.room))
                (length entries) (omega arith) in
            let (j, w, r') = place-Room f (length entries) text b q other in
            (b, j, rw (full, e, w, make_room) refl, omega (arith, p.room, c), r')
        | inr ok ↦ (old, index, rw (ok, make_room) refl, ground arith, r)
      ]
