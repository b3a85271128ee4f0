-- ===== src/Streams/Peeker/Buffer.antt =====
-- The buffer of the peeker (code/streams/include/streams/char_input_stream_peeker.h) as a queue.
use Prim.Native.Nat.{bit_and}
use basedlang.Prelude.{
  ℕ, zero, suc, ◌+◌, ◌-◌, ◌≤◌, ◌<◌, ◌≡◌, ◌≢◌, refl, sym, ap, ◌∙◌, some, List, [], ◌∷◌, ◌++◌, length,
  get_elem?, leb, ◌==◌, arith, if◌then◌else◌, Bool-cases, inl, inr, length-append, get_elem?-append,
  get_elem?-append-length, lt-of_get_elem?,
}
use native.Mathlib.Decide.{ℕ_discrete}
use basedlang.Mask.{
  IsPower, one, double, IsPower-positive, mask-zero, mask-le, mask_apart, mask-suc,
}
use basedlang.Streams.Peeker.{Next, Peeker, double_to, new, push}

-- The characters that the buffer holds, first to last.
pub record Holds {S : Type 0} (p : Peeker S) (xs : List ℕ) : Type 0 where
  pub sized : p.size ≡ length xs
  pub bounded : p.size ≤ p.capacity
  pub power : IsPower (p.capacity)
  pub head_bounded : p.head ≤ p.capacity - 1
  pub lookahead : p.max_lookahead < p.capacity
  pub held :
      (i c : ℕ) → get_elem? xs i ≡ some c → p.buffer (bit_and (p.head + i) (p.capacity - 1)) ≡ c

-- The buffer does not change when the stream does.
pub same_buffer :
    {S : Type 0} (p : Peeker S) (s : S) (xs : List ℕ)
    → Holds p xs
    → Holds (record p { stream = s }) xs
same_buffer p s xs h = record {
  sized = h.sized;
  bounded = h.bounded;
  power = h.power;
  head_bounded = h.head_bounded;
  lookahead = h.lookahead;
  held = h.held;
}

double_to-IsPower : (n c m : ℕ) → IsPower c → IsPower (double_to n c m)
unfolding double_to
double_to-IsPower zero c m p = p
double_to-IsPower (suc n) c m p = elim (Bool-cases (leb m c)) [
  | inl h ↦ rw (h, double_to) p
  | inr h ↦ rw (h, double_to) (double_to-IsPower n (c + c) m (double c p))
]

le-double_to : (n c m : ℕ) → 0 < c → m ≤ c + n → m ≤ double_to n c m
unfolding double_to
le-double_to zero c m pos h = omega arith
le-double_to (suc n) c m pos h = elim (Bool-cases (leb m c)) [
  | inl e ↦ rw (e, double_to) (ground arith)
  | inr e ↦ rw (e, double_to) (le-double_to n (c + c) m (omega arith) (omega arith))
]

pub push-Holds :
    {S : Type 0} (next : S → Next × S) (p : Peeker S) (xs : List ℕ) (c : ℕ)
    → Holds p xs
    → p.size < p.capacity
    → Holds (push next c p) (xs ++ c ∷ [])
push-Holds next p xs c h room = record {
  sized = omega (arith, h.sized, length-append xs (c ∷ []));
  bounded = omega (arith, room);
  power = h.power;
  head_bounded = h.head_bounded;
  lookahead = h.lookahead;
  held = λ i d e. held i d e (lt-of_get_elem? (xs ++ c ∷ []) i d e);
}
  where
    slot : ℕ → ℕ
    slot i = bit_and (p.head + i) (p.capacity - 1)

    stored : (i : ℕ) → ((if slot i == slot i then c else p.buffer (slot i)) ≡ c)
    stored i = ground arith

    kept :
        (i j : ℕ)
        → slot i ≢ slot j
        → (if slot i == slot j then c else p.buffer (slot i)) ≡ p.buffer (slot i)
    kept i j ne = ground arith

    held :
        (i d : ℕ)
        → get_elem? (xs ++ c ∷ []) i ≡ some d
        → i < length (xs ++ c ∷ [])
        → (if slot i == slot (p.size) then c else p.buffer (slot i)) ≡ d
    held i d e lt = elim (ℕ_discrete i (p.size)) [
      | yes q ↦
          ap (λ k. if slot k == slot (p.size) then c else p.buffer (slot k)) q
          ∙ stored (p.size)
          ∙ some-injective (
              sym (get_elem?-append-length xs [] c)
              ∙ ap (get_elem? (xs ++ c ∷ [])) (sym (q ∙ h.sized))
              ∙ e)
      | no ne ↦
          kept i (p.size) (
            mask_apart (p.capacity) (p.head) (h.power) (h.head_bounded) i (p.size)
              (omega (arith, h.sized, length-append xs (c ∷ []))) room)
          ∙ h.held i d (
              sym
                (get_elem?-append xs (c ∷ []) i (omega (arith, h.sized, length-append xs (c ∷ []))))
              ∙ e)
    ]
      where
        some-injective : {a b : ℕ} → some a ≡ some b → a ≡ b
        some-injective e = cc

pub new-Holds : {S : Type 0} (s : S) (n : ℕ) → Holds (new s n) []
unfolding new
new-Holds s n = record {
  sized = refl;
  bounded = omega arith;
  power = double_to-IsPower (n + 1) 1 (n + 1) one;
  head_bounded = omega arith;
  lookahead = omega (arith, le-double_to (n + 1) 1 (n + 1));
  held = λ i c e. cc;
}

-- The first character is at the head, and the others are what is left without it.
pub pop-Holds :
    {S : Type 0} (p : Peeker S) (c : ℕ) (xs : List ℕ)
    → Holds p (c ∷ xs)
    → (p.buffer (p.head) ≡ c)
      × Holds (record p { head = bit_and (p.head + 1) (p.capacity - 1); size = p.size - 1 }) xs
pop-Holds p c xs h = (
  ap (p.buffer) (sym (mask-zero (p.capacity) (p.head) (h.power) (h.head_bounded)))
      ∙ h.held 0 c refl,
  record {
    sized = omega (arith, h.sized);
    bounded = omega (arith, h.bounded);
    power = h.power;
    head_bounded =
        mask-le (p.capacity) (p.head) (h.power) (h.head_bounded) 1
          (omega (arith, IsPower-positive (h.power)));
    lookahead = h.lookahead;
    held = λ i d e. held i d e (lt-of_get_elem? xs i d e);
  },
)
  where
    held :
        (i d : ℕ)
        → get_elem? xs i ≡ some d
        → i < length xs
        → p.buffer (bit_and (bit_and (p.head + 1) (p.capacity - 1) + i) (p.capacity - 1)) ≡ d
    held i d e lt =
        ap (p.buffer) (
          mask-suc (p.capacity) (p.head) i (h.power) (h.head_bounded)
            (omega (arith, h.sized, h.bounded)))
        ∙ h.held (suc i) d e
