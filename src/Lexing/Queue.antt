-- ===== src/Lexing/Queue.antt =====
-- The ring buffer (code/lexing/include/lexing/ring_buffer.h) as a queue.
use basedlang.Prelude.{
  ℕ, zero, suc, ◌+◌, ◌-◌, ◌*◌, ◌≤◌, ◌<◌, ◌≡◌, ◌≢◌, refl, sym, ap, ◌∙◌, subst, Bool, true, false,
  ◌⊎◌, inl, inr, Option, some, none, List, [], ◌∷◌, ◌++◌, length, get_elem?, ◌==◌, arith,
  if◌then◌else◌, length-append, get_elem?-append, get_elem?-append-length, lt-of_get_elem?,
}
use native.Mathlib.Decide.{ℕ_discrete}
use basedlang.Mask.{
  IsPower, one, double, IsPower-positive, wrapped, mask-wrapped, mask-zero, mask-le, mask_apart,
  mask-suc,
}
use basedlang.Lexing.RingBuffer.{
  Ring, empty, slot, assign, move_slots, grow, push_back, pop_front, get,
}

-- The elements of the buffer, first to last.
pub record Denotes {A : Type 0} (r : Ring A) (xs : List A) : Type 0 where
  pub sized : r.size ≡ length xs
  pub bounded : r.size ≤ r.capacity
  pub power : (r.capacity ≡ 0) ⊎ IsPower (r.capacity)
  pub head_bounded : r.head ≤ r.capacity - 1
  pub held : (i : ℕ) (x : A) → get_elem? xs i ≡ some x → r.buffer (slot r i) ≡ some x

doubled : (c : ℕ) → (c ≡ 0) ⊎ IsPower c → IsPower (if c == 0 then 4 else c * 2)
doubled c (inl e) =
    subst (λ x. IsPower (if x == 0 then 4 else x * 2)) (sym e) (double 2 (double 1 one))
doubled c (inr p) = subst IsPower (ground (arith, IsPower-positive p)) (double c p)

doubled-room : (c : ℕ) → c < (if c == 0 then 4 else c * 2)
doubled-room c = ground arith

module _ {A : Type 0} where
  pub empty-Denotes : Denotes {A = A} empty []
  unfolding empty
  empty-Denotes = record {
    sized = refl;
    bounded = omega arith;
    power = inl refl;
    head_bounded = omega arith;
    held = λ i x e. cc;
  }

  assign-same : (buffer : ℕ → Option A) (i : ℕ) (x : Option A) → assign buffer i x i ≡ x
  assign-same buffer i x = ground arith

  assign-other :
      (buffer : ℕ → Option A) (i j : ℕ) (x : Option A) → j ≢ i → assign buffer i x j ≡ buffer j
  assign-other buffer i j x ne = ground arith

  -- The first `n` new slots have what the first `n` indices had.
  moved : (r : Ring A) (n i : ℕ) → i < n → move_slots r n i ≡ r.buffer (slot r i)
  unfolding move_slots
  moved r zero i h = absurd (omega arith)
  moved r (suc n) i h = elim (ℕ_discrete i n) [
    | yes e ↦
        ap (assign (move_slots r n) n (r.buffer (slot r n))) e
        ∙ assign-same (move_slots r n) n (r.buffer (slot r n))
        ∙ ap (λ k. r.buffer (slot r k)) (sym e)
    | no ne ↦ assign-other (move_slots r n) n i (r.buffer (slot r n)) ne ∙ moved r n i (omega arith)
  ]

  -- The buffer has room for one more.
  record Room (r : Ring A) (xs : List A) : Type 0 where
    denotes : Denotes r xs
    room : r.size < r.capacity
    capacity_power : IsPower (r.capacity)

  -- The buffer after it has grown.
  abbrev bigger : Ring A → Ring A
  bigger r = record r {
    buffer = move_slots r (r.size);
    capacity = if r.capacity == 0 then 4 else r.capacity * 2;
    head = 0;
  }

  bigger-Room : (r : Ring A) (xs : List A) → r.size ≡ r.capacity → Denotes r xs → Room (bigger r) xs
  bigger-Room r xs full d = record {
    denotes = record {
      sized = d.sized;
      bounded = omega (arith, doubled-room (r.capacity));
      power = inr power;
      head_bounded = omega arith;
      held = λ i x e. held i x e (lt-of_get_elem? xs i x e);
    };
    room = omega (arith, doubled-room (r.capacity));
    capacity_power = power;
  }
    where
      power : IsPower (if r.capacity == 0 then 4 else r.capacity * 2)
      power = doubled (r.capacity) (d.power)

      held :
          (i : ℕ) (x : A)
          → get_elem? xs i ≡ some x
          → i < length xs
          → move_slots r (r.size) (slot (bigger r) i) ≡ some x
      held i x e lt =
          ap (move_slots r (r.size)) (
            mask-wrapped (if r.capacity == 0 then 4 else r.capacity * 2) 0 power (omega arith) i
              (omega (arith, d.sized, doubled-room (r.capacity)))
            ∙ first (if r.capacity == 0 then 4 else r.capacity * 2) (doubled-room (r.capacity)))
          ∙ moved r (r.size) i (omega (arith, d.sized))
          ∙ d.held i x e
        where
          first : (c : ℕ) → r.capacity < c → wrapped c (0 + i) ≡ i
          first c h = ground (arith, d.sized)

  grow-Room : (r : Ring A) (xs : List A) → Denotes r xs → Room (grow r) xs
  unfolding grow
  grow-Room r xs d = go (r.size == r.capacity) refl
    where
      go : (b : Bool) → (r.size == r.capacity) ≡ b → Room (grow r) xs
      go true e = rw (e, grow) (bigger-Room r xs (ground arith) d)
      go false e =
          rw (e, grow)
            (record {
              denotes = d;
              room = ground (arith, d.bounded);
              capacity_power = elim (d.power) [
                | inl z ↦ absurd (ground (arith, d.bounded))
                | inr p ↦ p
              ];
            })

  -- The slot behind the last element is free.
  store-Denotes :
      (r : Ring A) (xs : List A) (v : A)
      → Room r xs
      → Denotes
          (record r { buffer = assign (r.buffer) (slot r (r.size)) (some v); size = r.size + 1 })
          (xs ++ v ∷ [])
  store-Denotes r xs v m = record {
    sized = omega (arith, d.sized, length-append xs (v ∷ []));
    bounded = omega (arith, m.room);
    power = inr (m.capacity_power);
    head_bounded = d.head_bounded;
    held = λ i x e. held i x e (lt-of_get_elem? (xs ++ v ∷ []) i x e);
  }
    where
      d : Denotes r xs
      d = m.denotes

      held :
          (i : ℕ) (x : A)
          → get_elem? (xs ++ v ∷ []) i ≡ some x
          → i < length (xs ++ v ∷ [])
          → assign (r.buffer) (slot r (r.size)) (some v) (slot r i) ≡ some x
      held i x e lt = elim (ℕ_discrete i (r.size)) [
        | yes q ↦
            ap (λ k. assign (r.buffer) (slot r (r.size)) (some v) (slot r k)) q
            ∙ assign-same (r.buffer) (slot r (r.size)) (some v)
            ∙ sym (get_elem?-append-length xs [] v)
            ∙ ap (get_elem? (xs ++ v ∷ [])) (sym (q ∙ d.sized))
            ∙ e
        | no ne ↦
            assign-other (r.buffer) (slot r (r.size)) (slot r i) (some v) (
              mask_apart (r.capacity) (r.head) (m.capacity_power) (d.head_bounded) i (r.size)
                (omega (arith, d.sized, length-append xs (v ∷ []))) (m.room))
            ∙ d.held i x (
                sym (
                  get_elem?-append xs (v ∷ []) i
                    (omega (arith, d.sized, length-append xs (v ∷ []))))
                ∙ e)
      ]

  -- Pushing an element on a buffer, also on one that is full or that wraps round its end, gives a
  -- buffer with the same elements and this one behind them.
  pub push_back-Denotes :
      (r : Ring A) (xs : List A) (v : A) → Denotes r xs → Denotes (push_back v r) (xs ++ v ∷ [])
  unfolding push_back
  push_back-Denotes r xs v d = store-Denotes (grow r) xs v (grow-Room r xs d)

  capacity-IsPower : (r : Ring A) (x : A) (xs : List A) → Denotes r (x ∷ xs) → IsPower (r.capacity)
  capacity-IsPower r x xs d = elim (d.power) [
    | inl z ↦ absurd (omega (arith, z, d.bounded, d.sized))
    | inr p ↦ p
  ]

  -- The buffer without its first element.
  abbrev rest_of : Ring A → Ring A
  rest_of r = record r {
    buffer = assign (r.buffer) (r.head) none;
    head = slot r 1;
    size = r.size - 1;
  }

  rest_of-Denotes :
      (r : Ring A) (x : A) (xs : List A)
      → IsPower (r.capacity)
      → Denotes r (x ∷ xs)
      → Denotes (rest_of r) xs
  rest_of-Denotes r x xs p d = record {
    sized = omega (arith, d.sized);
    bounded = omega (arith, d.bounded);
    power = d.power;
    head_bounded =
        mask-le (r.capacity) (r.head) p (d.head_bounded) 1 (omega (arith, IsPower-positive p));
    held = λ i y e. held i y e (lt-of_get_elem? xs i y e);
  }
    where
      held :
          (i : ℕ) (y : A)
          → get_elem? xs i ≡ some y
          → i < length xs
          → assign (r.buffer) (r.head) none (slot (rest_of r) i) ≡ some y
      held i y e lt =
          ap (assign (r.buffer) (r.head) none) (
            mask-suc (r.capacity) (r.head) i p (d.head_bounded) (omega (arith, d.sized, d.bounded)))
          ∙ assign-other (r.buffer) (r.head) (slot r (suc i)) none (λ q.
            mask_apart (r.capacity) (r.head) p (d.head_bounded) 0 (suc i) (omega arith)
              (omega (arith, d.sized, d.bounded))
              (mask-zero (r.capacity) (r.head) p (d.head_bounded) ∙ sym q))
          ∙ d.held (suc i) y e

  -- Popping a buffer that is not empty succeeds, and leaves the elements behind the first.
  pub pop_front-Denotes :
      (r : Ring A) (x : A) (xs : List A)
      → Denotes r (x ∷ xs)
      → (r' : Ring A) × (pop_front r ≡ some r') × Denotes r' xs
  unfolding pop_front
  pop_front-Denotes r x xs d =
      let p = capacity-IsPower r x xs d in
      let first =
        ap (r.buffer) (sym (mask-zero (r.capacity) (r.head) p (d.head_bounded)))
        ∙ d.held 0 x refl in
      (rest_of r, rw (first, pop_front) refl, rest_of-Denotes r x xs p d)

  -- Indexing reads the element at the index.
  pub get-Denotes :
      (r : Ring A) (xs : List A) (i : ℕ) (x : A)
      → Denotes r xs
      → get_elem? xs i ≡ some x
      → get r i ≡ some x
  unfolding get
  get-Denotes r xs i x d e = d.held i x e
