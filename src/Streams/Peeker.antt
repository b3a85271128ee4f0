-- ===== src/Streams/Peeker.antt =====
-- `Char_input_stream_peeker` (code/streams/include/streams/char_input_stream_peeker.h), over any
-- character stream: `next` is its `read_character`, which gives a character, or none at the end, or
-- throws, and the stream's next state.
pub mod Buffer
pub mod Lookahead
use Prim.Native.Nat.{bit_and}
use basedlang.Prelude.{ℕ, zero, suc, ◌+◌, ◌-◌, leb, ltb, ◌==◌, if◌then◌else◌}

pub data Next : Type 0 where
  character : ℕ → Next
  end_of_input throws : Next

pub record Peeker (S : Type 0) : Type 0 where
  pub stream : S
  pub buffer : ℕ → ℕ
  pub capacity : ℕ
  pub head : ℕ
  pub size : ℕ
  pub max_lookahead : ℕ

-- `std::bit_ceil`: one is doubled until it reaches the number, which takes no more rounds than that.
unfoldable pub double_to : ℕ → ℕ → ℕ → ℕ
double_to zero c n = c
double_to (suc rounds) c n = let rest = double_to rounds (c + c) n in if leb n c then c else rest

abbrev pub bit_ceil : ℕ → ℕ
bit_ceil n = double_to n 1 n

-- The constructor, whose buffer `std::make_unique` fills with zeros.
unfoldable pub new : {S : Type 0} → S → ℕ → Peeker S
unfolding double_to
new stream max_lookahead = record {
  stream = stream;
  buffer = λ _. 0;
  capacity = bit_ceil (max_lookahead + 1);
  head = 0;
  size = 0;
  max_lookahead = max_lookahead;
}

module _ {S : Type 0} (next : S → Next × S) where
  -- `_buffer[(_head + index) & (_capacity - 1)]`
  abbrev pub at : Peeker S → ℕ → ℕ
  at p index = p.buffer (bit_and (p.head + index) (p.capacity - 1))

  abbrev pub push : ℕ → Peeker S → Peeker S
  push c p =
      let slot = bit_and (p.head + p.size) (p.capacity - 1) in
      record p { buffer = λ j. if j == slot then c else p.buffer j; size = p.size + 1 }

  -- The loop of `peek`, for at most so many rounds.
  unfoldable pub peek_rounds : ℕ → ℕ → Peeker S → Next × Peeker S
  peek_rounds zero offset p = (character (at p offset), p)
  peek_rounds (suc n) offset p =
      let s = (next (p.stream)).1 in
      if ltb (p.size) (offset + 1)
      then elim (next (p.stream)).0 [
        | character c ↦ peek_rounds n offset (push c (record p { stream = s }))
        | end_of_input ↦ (end_of_input, record p { stream = s })
        | throws ↦ (throws, record p { stream = s })
      ]
      else (character (at p offset), p)

  unfoldable pub peek : ℕ → Peeker S → Next × Peeker S
  unfolding peek_rounds
  peek offset p = peek_rounds (suc offset) offset p

  unfoldable pub read : Peeker S → Next × Peeker S
  read p =
      if p.size == 0 then ((next (p.stream)).0, record p { stream = (next (p.stream)).1 }) else (
        character (p.buffer (p.head)),
        record p { head = bit_and (p.head + 1) (p.capacity - 1); size = p.size - 1 },
      )
