-- ===== src/Mask.antt =====
-- Indices masked by a power of two, less one (code/lexing/include/lexing/ring_buffer.h).
use Prim.Native.Nat.{min, bit_and, digits, bit_and-bitwise}
use basedlang.Prelude.{
  ℕ, zero, suc, ◌+◌, ◌-◌, ◌*◌, ◌/◌, ◌%◌, ◌≤◌, ◌<◌, ◌≡◌, ◌≢◌, refl, sym, subst, ap, ◌∙◌, ltb, arith,
  if◌then◌else◌,
}

-- One, doubled some number of times.
pub data IsPower : ℕ → Type 0 where
  one : IsPower 1
  double : (c : ℕ) → IsPower c → IsPower (c + c)

pub IsPower-positive : {c : ℕ} → IsPower c → 0 < c
IsPower-positive one = omega arith
IsPower-positive (double c p) = omega (arith, IsPower-positive p)

-- The common digits of `x` and `y`, of which `x` has at most so many.
abbrev common : ℕ → ℕ → ℕ → ℕ
common n x y = digits (λ b. zero) min n x y

common-zero : (n y : ℕ) → common n 0 y ≡ 0
common-zero zero y = refl
common-zero (suc n) y = refl

-- An index below twice the power, wrapped once.
abbrev pub wrapped : ℕ → ℕ → ℕ
wrapped c x = if ltb x c then x else x - c

common-IsPower :
    {c : ℕ} → IsPower c → (n x : ℕ) → x ≤ n → x < c + c → common n x (c - 1) ≡ wrapped c x
common-IsPower one zero x h lt = ground arith
common-IsPower one (suc n) zero h lt = refl
common-IsPower one (suc n) (suc zero) h lt = omega (arith, common-zero n 0)
common-IsPower one (suc n) (suc (suc x)) h lt = absurd (omega arith)
common-IsPower (double c p) zero zero h lt = ground (arith, IsPower-positive p)
common-IsPower (double c p) zero (suc x) h lt = absurd (omega arith)
common-IsPower (double c p) (suc n) zero h lt = ground (arith, IsPower-positive p)
common-IsPower (double c p) (suc n) (suc x) h lt =
    ap (λ y. common n (suc x / 2) y * 2 + min (suc x % 2) ((c + c - 1) % 2)) half
    ∙ rest (common-IsPower p n (suc x / 2) (omega arith) (omega arith))
  where
    half : (c + c - 1) / 2 ≡ c - 1
    half = omega arith

    rest :
        common n (suc x / 2) (c - 1) ≡ wrapped c (suc x / 2)
        → common n (suc x / 2) (c - 1) * 2 + min (suc x % 2) ((c + c - 1) % 2)
          ≡ wrapped (c + c) (suc x)
    rest e = ground (arith, IsPower-positive p)

pub mask : {c : ℕ} → IsPower c → (x : ℕ) → x < c + c → bit_and x (c - 1) ≡ wrapped c x
mask {c} p x lt = bit_and-bitwise x (c - 1) ∙ common-IsPower p x x (omega arith) lt

common-le : (n x y : ℕ) → common n x y ≤ y
common-le zero x y = omega arith
common-le (suc n) zero y = omega arith
common-le (suc n) (suc x) y = ground (arith, common-le n (suc x / 2) (y / 2))

-- A mask leaves an index inside.
pub mask-lt : {c : ℕ} → IsPower c → (x : ℕ) → bit_and x (c - 1) < c
mask-lt {c} p x =
    omega (arith, bit_and-bitwise x (c - 1), common-le x x (c - 1), IsPower-positive p)

-- Slots `i` behind the head `h` in a buffer of `c` slots.
module _ (c h : ℕ) (power : IsPower c) (inside : h ≤ c - 1) where
  pub mask-wrapped : (i : ℕ) → i ≤ c → bit_and (h + i) (c - 1) ≡ wrapped c (h + i)
  mask-wrapped i le = mask power (h + i) (omega (arith, IsPower-positive power))

  pub mask-zero : bit_and (h + 0) (c - 1) ≡ h
  mask-zero = mask-wrapped 0 (omega arith) ∙ ground (arith, IsPower-positive power)

  pub mask-le : (i : ℕ) → i ≤ c → bit_and (h + i) (c - 1) ≤ c - 1
  mask-le i le =
      subst (λ k. k ≤ c - 1) (sym (mask-wrapped i le)) (ground (arith, IsPower-positive power))

  wrapped_apart : (i j : ℕ) → i < j → j < c → wrapped c (h + i) ≢ wrapped c (h + j)
  wrapped_apart i j lt le e = ground arith

  -- Different indices have different slots.
  pub mask_apart : (i j : ℕ) → i < j → j < c → bit_and (h + i) (c - 1) ≢ bit_and (h + j) (c - 1)
  mask_apart i j lt le e =
      wrapped_apart i j lt le
        (sym (mask-wrapped i (omega arith)) ∙ e ∙ mask-wrapped j (omega arith))

-- An index counted from the next head.
pub mask-suc :
    (c h i : ℕ)
    → IsPower c
    → h ≤ c - 1
    → suc i < c
    → bit_and (bit_and (h + 1) (c - 1) + i) (c - 1) ≡ bit_and (h + suc i) (c - 1)
mask-suc c h i power inside lt =
    mask-wrapped c (bit_and (h + 1) (c - 1)) power (mask-le c h power inside 1 (omega arith)) i
      (omega arith)
    ∙ ap (λ k. wrapped c (k + i)) (mask-wrapped c h power inside 1 (omega arith))
    ∙ ground (arith, IsPower-positive power)
    ∙ sym (mask-wrapped c h power inside (suc i) (omega arith))
