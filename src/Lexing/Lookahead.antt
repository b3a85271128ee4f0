-- ===== src/Lexing/Lookahead.antt =====
-- The reader (code/lexing/src/lexeme_stream_reader.cpp) against the sequence of the lexer's lexemes.
use basedlang.Prelude.{
  ℕ, zero, suc, ◌+◌, ◌≤◌, ◌<◌, ◌≡◌, refl, sym, ap, ◌∙◌, Bool, true, false, Option, some, none, List,
  [], ◌∷◌, ◌++◌, length, get_elem?, leb, ◌==◌, arith, if◌then◌else◌, length-append,
}
use basedlang.Lexing.RingBuffer.{push_back, get}
use basedlang.Lexing.Queue.{Denotes, push_back-Denotes, pop_front-Denotes, get-Denotes}
use basedlang.Lexing.Reader.{Reader, value, lex_error, read_of, fill, peek, read}

module _ {A S : Type 0} (lex : S → Option A × S) where
  -- The lexeme that the lexer gives after so many others; none if it throws before.
  abbrev pub nth_lex : S → ℕ → Option A
  nth_lex s zero = (lex s).0
  nth_lex s (suc i) = elim (lex s).0 [ none ↦ none | some x ↦ nth_lex (lex s).1 i ]

  -- The same, where some lexemes have been lexed already.
  abbrev pub ahead : List A → S → ℕ → Option A
  ahead [] s i = nth_lex s i
  ahead (x ∷ xs) s zero = some x
  ahead (x ∷ xs) s (suc i) = ahead xs s i

  -- The reader will give these lexemes.
  pub record Shows (r : Reader A S) (upcoming : ℕ → Option A) : Type 0 where
    pub lexed : List A
    pub denotes : Denotes (r.buffer) lexed
    pub ahead_eq : (i : ℕ) → ahead lexed (r.stream) i ≡ upcoming i

  nth_lex-suc :
      (s : S) (x : A) (i : ℕ) → (lex s).0 ≡ some x → nth_lex s (suc i) ≡ nth_lex (lex s).1 i
  nth_lex-suc s x i e = rw (e, nth_lex) refl

  pub ahead-append :
      (xs : List A) (s : S) (x : A) (i : ℕ)
      → (lex s).0 ≡ some x
      → ahead (xs ++ x ∷ []) (lex s).1 i ≡ ahead xs s i
  ahead-append [] s x zero e = sym e
  ahead-append [] s x (suc i) e = rw (e, ahead, nth_lex) refl
  ahead-append (y ∷ xs) s x zero e = refl
  ahead-append (y ∷ xs) s x (suc i) e = ahead-append xs s x i e

  get_elem?-ahead : (xs : List A) (s : S) (i : ℕ) → i < length xs → get_elem? xs i ≡ ahead xs s i
  get_elem?-ahead [] s i h = absurd (omega arith)
  get_elem?-ahead (x ∷ xs) s zero h = refl
  get_elem?-ahead (x ∷ xs) s (suc i) h = get_elem?-ahead xs s i (omega arith)

  ahead-none :
      (xs : List A) (s : S) (i : ℕ) → (lex s).0 ≡ none → length xs ≤ i → ahead xs s i ≡ none
  ahead-none [] s zero e h = e
  ahead-none [] s (suc i) e h = rw (e, ahead, nth_lex) refl
  ahead-none (x ∷ xs) s zero e h = absurd (omega arith)
  ahead-none (x ∷ xs) s (suc i) e h = ahead-none xs s i e (omega arith)

  -- The buffer reaches the offset, and the reader gives the same lexemes as before.
  record Filled (offset : ℕ) (xs : List A) (s : S) (r : Reader A S) : Type 0 where
    lexed : List A
    denotes : Denotes (r.buffer) lexed
    same : (i : ℕ) → ahead lexed (r.stream) i ≡ ahead xs s i
    enough : offset < length lexed

  fill-Filled :
      (n offset : ℕ) (r : Reader A S) (xs : List A) (x : A)
      → Denotes (r.buffer) xs
      → ahead xs (r.stream) offset ≡ some x
      → offset < n + length xs
      → (r' : Reader A S) × (fill lex n offset r ≡ (true, r')) × Filled offset xs (r.stream) r'
  unfolding fill
  fill-Filled zero offset r xs x d e h =
      (r, refl, record { lexed = xs; denotes = d; same = λ i. refl; enough = omega (arith, h) })
  fill-Filled (suc n) offset r xs x d e h =
      full (leb (r.buffer.size) offset) refl (fill-Filled n offset)
    where
      Goal : Type 0
      Goal =
          (r' : Reader A S) × (fill lex (suc n) offset r ≡ (true, r'))
          × Filled offset xs (r.stream) r'

      Shorter : Type 0
      Shorter =
          (r : Reader A S) (xs : List A) (x : A)
          → Denotes (r.buffer) xs
          → ahead xs (r.stream) offset ≡ some x
          → offset < n + length xs
          → (r' : Reader A S) × (fill lex n offset r ≡ (true, r')) × Filled offset xs (r.stream) r'

      more :
          (o : Option A)
          → (lex (r.stream)).0 ≡ o
          → leb (r.buffer.size) offset ≡ true
          → Shorter
          → Goal
      more none f b ih = cc (ahead-none xs (r.stream) offset f (ground (arith, d.sized)))
      more (some y) f b ih =
          let (r', g, m) =
            ih (record r { stream = (lex (r.stream)).1; buffer = push_back y (r.buffer) })
              (xs ++ y ∷ []) x (push_back-Denotes (r.buffer) xs y d)
              (ahead-append xs (r.stream) y offset f ∙ e)
              (omega (arith, h, length-append xs (y ∷ []))) in
          (
            r',
            rw (b, f, fill) g,
            record {
              lexed = m.lexed;
              denotes = m.denotes;
              same = λ i. m.same i ∙ ahead-append xs (r.stream) y i f;
              enough = m.enough;
            },
          )

      full : (b : Bool) → leb (r.buffer.size) offset ≡ b → Shorter → Goal
      full true b ih = more (lex (r.stream)).0 refl b ih
      full false b ih = (
        r,
        rw (b, fill) refl,
        record { lexed = xs; denotes = d; same = λ i. refl; enough = ground (arith, d.sized) },
      )

  module _ (r : Reader A S) (upcoming : ℕ → Option A) (x : A) (shown : Shows r upcoming) where
    -- Where the lexer gives so many lexemes, `peek` returns the one at the offset, and the reader still
    -- has all of them to give.
    pub peek-Shows :
        (offset : ℕ)
        → upcoming offset ≡ some x
        → (r' : Reader A S) × (peek lex offset r ≡ (value x, r')) × Shows r' upcoming
    unfolding peek
    peek-Shows offset e =
        let xs = shown.lexed in
        let at_offset = shown.ahead_eq offset ∙ e in
        let (r', g, m) =
          fill-Filled (suc offset) offset r xs x (shown.denotes) at_offset (omega arith) in
        let held =
          get-Denotes (r'.buffer) (m.lexed) offset x (m.denotes)
            (get_elem?-ahead (m.lexed) (r'.stream) offset (m.enough) ∙ m.same offset ∙ at_offset) in
        (
          r',
          ap (λ p. (if p.0 then read_of (get (p.1.buffer) offset) else lex_error, p.1)) g
              ∙ ap (λ o. (read_of o, r')) held,
          record {
            lexed = m.lexed;
            denotes = m.denotes;
            ahead_eq = λ i. m.same i ∙ shown.ahead_eq i;
          },
        )

    -- `read` returns the next lexeme, and the reader has those behind it to give.
    pub read-Shows :
        upcoming 0 ≡ some x
        → (r' : Reader A S) × (read lex r ≡ (value x, r')) × Shows r' (λ i. upcoming (suc i))
    unfolding read
    read-Shows e = go (shown.lexed) (shown.denotes) (shown.ahead_eq)
      where
        go :
            (xs : List A)
            → Denotes (r.buffer) xs
            → ((i : ℕ) → ahead xs (r.stream) i ≡ upcoming i)
            → (r' : Reader A S) × (read lex r ≡ (value x, r')) × Shows r' (λ i. upcoming (suc i))
        go [] d a =
            let first = a 0 ∙ e in
            (
              record r { stream = (lex (r.stream)).1 },
              rw (size_zero, first, read) refl,
              record {
                lexed = [];
                denotes = d;
                ahead_eq = λ i. sym (nth_lex-suc (r.stream) x i first) ∙ a (suc i);
              },
            )
          where
            size_zero : (r.buffer.size == 0) ≡ true
            size_zero = ground (arith, d.sized)
        go (y ∷ xs) d a =
            let (b, popped, d') = pop_front-Denotes (r.buffer) y xs d in
            let first = get-Denotes (r.buffer) (y ∷ xs) 0 y d refl in
            (
              record r { buffer = b },
              rw (size_suc, first, popped, read) refl
                  ∙ ap (λ o. (read_of o, record r { buffer = b })) (a 0 ∙ e),
              record { lexed = xs; denotes = d'; ahead_eq = λ i. a (suc i) },
            )
          where
            size_suc : (r.buffer.size == 0) ≡ false
            size_suc = ground (arith, d.sized)
