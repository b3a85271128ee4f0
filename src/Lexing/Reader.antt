-- ===== src/Lexing/Reader.antt =====
-- `Lexeme_stream_reader` (code/lexing/src/lexeme_stream_reader.cpp), over any lexer: `lex` gives the
-- next lexeme, or throws (`none`), and the lexer's next state.
use basedlang.Prelude.{
  ℕ, zero, suc, Bool, true, false, Option, some, none, leb, ◌==◌, if◌then◌else◌,
}
use basedlang.Lexing.RingBuffer.{Ring, push_back, pop_front, get}

pub record Reader (A S : Type 0) : Type 0 where
  pub stream : S
  pub buffer : Ring A

-- A lexeme, the lexer's exception, or what C++ leaves undefined.
pub data Read (A : Type 0) : Type 0 where
  value : A → Read A
  lex_error undefined : Read A

abbrev pub read_of : {A : Type 0} → Option A → Read A
read_of (some x) = value x
read_of none = undefined

module _ {A S : Type 0} (lex : S → Option A × S) where
  -- The loop of `peek`, for at most so many rounds; `false` when the lexer throws.
  unfoldable pub fill : ℕ → ℕ → Reader A S → Bool × Reader A S
  fill zero offset r = (true, r)
  fill (suc n) offset r =
      if leb (r.buffer.size) offset
      then elim (lex (r.stream)).0 [
        | none ↦ (false, record r { stream = (lex (r.stream)).1 })
        | some x ↦
            fill n offset
              (record r { stream = (lex (r.stream)).1; buffer = push_back x (r.buffer) })
      ]
      else (true, r)

  -- Each round adds a lexeme, so that `offset + 1` rounds are enough.
  unfoldable pub peek : ℕ → Reader A S → Read A × Reader A S
  unfolding fill
  peek offset r =
      let (done, r') = fill (suc offset) offset r in
      (if done then read_of (get (r'.buffer) offset) else lex_error, r')

  unfoldable pub read : Reader A S → Read A × Reader A S
  read r =
      if r.buffer.size == 0
      then elim (lex (r.stream)).0 [
        | none ↦ (lex_error, record r { stream = (lex (r.stream)).1 })
        | some x ↦ (value x, record r { stream = (lex (r.stream)).1 })
      ]
      else elim (get (r.buffer) 0) [
        | none ↦ (undefined, r)
        | some x ↦ elim (pop_front (r.buffer)) [
          | none ↦ (undefined, r)
          | some b ↦ (value x, record r { buffer = b })
        ]
      ]
