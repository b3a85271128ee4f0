-- ===== src/Lexing/RingBuffer.antt =====
-- `Ring_buffer` (code/lexing/include/lexing/ring_buffer.h). A slot without a live object is `none`, and
-- so is what C++ leaves undefined. Sizes do not reach 2 ^ 64, since they count objects in memory.
use Prim.Native.Nat.{bit_and}
use basedlang.Prelude.{ℕ, zero, suc, ◌+◌, ◌-◌, ◌*◌, Option, some, none, ◌==◌, if◌then◌else◌}

pub record Ring (A : Type 0) : Type 0 where
  pub buffer : ℕ → Option A
  pub capacity : ℕ
  pub head : ℕ
  pub size : ℕ

module _ {A : Type 0} where
  unfoldable pub empty : Ring A
  empty = record { buffer = λ _. none; capacity = 0; head = 0; size = 0 }

  -- `(_head + i) & (_capacity - 1)`
  abbrev pub slot : Ring A → ℕ → ℕ
  slot r i = bit_and (r.head + i) (r.capacity - 1)

  -- An object put into a slot, or destroyed there.
  abbrev pub assign : (ℕ → Option A) → ℕ → Option A → ℕ → Option A
  assign buffer i x j = if j == i then x else buffer j

  -- The new buffer after so many rounds of the loop that moves the objects.
  unfoldable pub move_slots : Ring A → ℕ → ℕ → Option A
  move_slots r zero = λ _. none
  move_slots r (suc i) = assign (move_slots r i) i (r.buffer (slot r i))

  unfoldable pub grow : Ring A → Ring A
  unfolding move_slots
  grow r =
      if r.size == r.capacity
      then record r {
        buffer = move_slots r (r.size);
        capacity = if r.capacity == 0 then 4 else r.capacity * 2;
        head = 0;
      }
      else r

  unfoldable pub push_back : A → Ring A → Ring A
  unfolding grow
  push_back value r =
      let r' = grow r in
      record r' { buffer = assign (r'.buffer) (slot r' (r'.size)) (some value); size = r'.size + 1 }

  unfoldable pub pop_front : Ring A → Option (Ring A)
  pop_front r = elim (r.buffer (r.head)) [
    | none ↦ none
    | some x ↦
        some (record r {
          buffer = assign (r.buffer) (r.head) none;
          head = slot r 1;
          size = r.size - 1;
        })
  ]

  -- `operator[]`
  unfoldable pub get : Ring A → ℕ → Option A
  get r index = r.buffer (slot r index)
