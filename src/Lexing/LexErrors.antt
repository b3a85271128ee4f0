-- ===== src/Lexing/LexErrors.antt =====
-- `peek` of the reader (code/lexing/src/lexeme_stream_reader.cpp) past a lexeme that does not lex.
use basedlang.Prelude.{
  ℕ, zero, suc, ◌+◌, ◌<◌, ◌≡◌, ◌≢◌, refl, ap, ◌∙◌, Bool, true, false, Option, some, none, List, [],
  ◌∷◌, ◌++◌, length, leb, arith, if◌then◌else◌, length-append,
}
use basedlang.Lexing.RingBuffer.{push_back, get}
use basedlang.Lexing.Queue.{Denotes, push_back-Denotes}
use basedlang.Lexing.Reader.{Reader, lex_error, read_of, fill, peek}
use basedlang.Lexing.Lookahead.{ahead, Shows, ahead-append}

module _ {A S : Type 0} (lex : S → Option A × S) where
  ahead-lexed : (xs : List A) (s : S) (i : ℕ) → i < length xs → ahead lex xs s i ≢ none
  ahead-lexed [] s i h e = absurd (omega arith)
  ahead-lexed (x ∷ xs) s zero h e = cc
  ahead-lexed (x ∷ xs) s (suc i) h e = ahead-lexed xs s i (omega arith) e

  fill-throws :
      (n offset : ℕ) (r : Reader A S) (xs : List A)
      → Denotes (r.buffer) xs
      → ahead lex xs (r.stream) offset ≡ none
      → offset < n + length xs
      → (fill lex n offset r).0 ≡ false
  unfolding fill
  fill-throws zero offset r xs d e h =
      absurd (ahead-lexed xs (r.stream) offset (omega (arith, h)) e)
  fill-throws (suc n) offset r xs d e h =
      full (leb (r.buffer.size) offset) refl (fill-throws n offset)
    where
      Shorter : Type 0
      Shorter =
          (r : Reader A S) (xs : List A)
          → Denotes (r.buffer) xs
          → ahead lex xs (r.stream) offset ≡ none
          → offset < n + length xs
          → (fill lex n offset r).0 ≡ false

      more :
          (o : Option A)
          → (lex (r.stream)).0 ≡ o
          → leb (r.buffer.size) offset ≡ true
          → Shorter
          → (fill lex (suc n) offset r).0 ≡ false
      more none f b ih = rw (b, f, fill) refl
      more (some y) f b ih =
          rw (b, f, fill)
            (ih (record r { stream = (lex (r.stream)).1; buffer = push_back y (r.buffer) })
              (xs ++ y ∷ []) (push_back-Denotes (r.buffer) xs y d)
              (ahead-append lex xs (r.stream) y offset f ∙ e)
              (omega (arith, h, length-append xs (y ∷ []))))

      full :
          (b : Bool)
          → leb (r.buffer.size) offset ≡ b
          → Shorter
          → (fill lex (suc n) offset r).0 ≡ false
      full true b ih = more (lex (r.stream)).0 refl b ih
      full false b ih = absurd (ahead-lexed xs (r.stream) offset (ground (arith, d.sized)) e)

  -- Where the lexer throws before it has given the lexeme at the offset, so does `peek`.
  pub peek-lex_error :
      (r : Reader A S) (upcoming : ℕ → Option A) (offset : ℕ)
      → Shows lex r upcoming
      → upcoming offset ≡ none
      → (peek lex offset r).0 ≡ lex_error
  unfolding peek
  peek-lex_error r upcoming offset shown e =
      ap
        (λ b.
          if b then read_of (get ((fill lex (suc offset) offset r).1.buffer) offset) else lex_error)
        (fill-throws (suc offset) offset r (shown.lexed) (shown.denotes) (shown.ahead_eq offset ∙ e)
          (omega arith))
