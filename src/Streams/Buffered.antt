-- ===== src/Streams/Buffered.antt =====
-- `Buffered_input_stream` (code/streams/include/streams/buffered_input_stream.h) over any byte stream:
-- `read` gives at most so many bytes, and the stream's next state. The caller's buffer is the list of the
-- bytes that have been put into it.
pub mod Contract
pub mod Reads
use basedlang.Prelude.{
  ℕ, zero, suc, ◌+◌, ◌-◌, ◌==◌, leb, ltb, Option, none, some, List, [], ◌++◌, length, take, drop,
  if◌then◌else◌,
}

-- `filled` has the bytes of the scratch buffer before `_end`.
pub record Buffered (S : Type 0) : Type 0 where
  pub stream : S
  pub filled : List ℕ
  pub pos : ℕ

module _ {S : Type 0} (read : S → ℕ → List ℕ × S) where
  abbrev pub BytesRead : Type 0
  BytesRead = Option (List ℕ × Buffered S)

  -- The second half of a round, and the rounds that follow.
  abbrev pub copy : (List ℕ → Buffered S → BytesRead) → ℕ → List ℕ → Buffered S → BytesRead
  copy next requested out b =
      let available = length (b.filled) - b.pos in
      let remaining = requested - length out in
      if ltb available remaining
      then next (out ++ drop (b.pos) (b.filled)) (record b { pos = length (b.filled) })
      else some
          (out ++ take remaining (drop (b.pos) (b.filled)), record b { pos = b.pos + remaining })

  -- The loop of `read_bytes`, for at most so many rounds.
  unfoldable pub read_rounds : ℕ → ℕ → List ℕ → Buffered S → BytesRead
  read_rounds zero requested out b = none
  read_rounds (suc n) requested out b =
      let next = read_rounds n requested in
      let got = read (b.stream) 4096 in
      let direct = read (b.stream) (requested - length out) in
      if b.pos == length (b.filled)
      then if leb 4096 (requested - length out)
        then some (out ++ direct.0, record b { stream = direct.1 })
        else if length got.0 == 0
        then some (out, record { stream = got.1; filled = got.0; pos = 0 })
        else copy next requested out (record { stream = got.1; filled = got.0; pos = 0 })
      else copy next requested out b

  unfoldable pub read_bytes : ℕ → Buffered S → BytesRead
  unfolding read_rounds
  read_bytes requested b =
      if requested == 0 then some ([], b) else read_rounds (suc requested) requested [] b
