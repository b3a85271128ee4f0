-- ===== src/Streams/Peeker/Lookahead.antt =====
-- The peeker (code/streams/include/streams/char_input_stream_peeker.h) against the text of its stream.
use Prim.Native.Nat.{bit_and}
use basedlang.Prelude.{
  ℕ, zero, suc, ◌+◌, ◌-◌, ◌≤◌, ◌<◌, ◌≡◌, refl, sym, ap, ◌∙◌, true, false, Option, some, none, List,
  [], ◌∷◌, ◌++◌, length, get_elem?, ltb, ◌==◌, arith, Bool-cases, inl, inr, get_elem?-append,
  get_elem?-lt, get_elem?-le, append_assoc, append-nil, drop,
}
use basedlang.Streams.Peeker.{
  Next, character, end_of_input, Peeker, new, at, push, peek_rounds, peek, read,
}
use basedlang.Streams.Peeker.Buffer.{Holds, same_buffer, push-Holds, new-Holds, pop-Holds}

-- The next character of a text.
abbrev pub next_of : Option ℕ → Next
next_of (some c) = character c
next_of none = end_of_input

-- What is asked of a stream: a relation between its states and texts, by which `next` gives the first
-- character of the text, and its state is then that of the rest; at the end it stays at the end.
pub record Text (S : Type 0) (next : S → Next × S) : Type 1 where
  pub Gives : S → List ℕ → Type 0
  pub next_eq : (s : S) (cs : List ℕ) → Gives s cs → (next s).0 ≡ next_of (get_elem? cs 0)
  pub next_gives : (s : S) (cs : List ℕ) → Gives s cs → Gives (next s).1 (drop 1 cs)

module _ {S : Type 0} (next : S → Next × S) (text : Text S next) where
  -- The text that the peeker has yet to give: what is buffered, and what the stream has.
  pub record Shows (p : Peeker S) (cs : List ℕ) : Type 0 where
    pub buffered : List ℕ
    pub holds : Holds p buffered
    pub rest : List ℕ
    pub gives : text.Gives (p.stream) rest
    pub all : cs ≡ buffered ++ rest

  pub new-Shows : (s : S) (cs : List ℕ) (n : ℕ) → text.Gives s cs → Shows (new s n) cs
  unfolding new
  new-Shows s cs n g = record {
    buffered = [];
    holds = new-Holds s n;
    rest = cs;
    gives = g;
    all = refl;
  }

  -- A buffered character is the text's.
  at_buffered :
      (offset : ℕ) (p : Peeker S) (cs : List ℕ) (w : Shows p cs)
      → offset < p.size
      → character (at next p offset) ≡ next_of (get_elem? cs offset)
  at_buffered offset p cs w lt =
      let lt' : offset < length (w.buffered) = omega (arith, w.holds.sized) in
      let (c, e) = get_elem?-lt (w.buffered) offset lt' in
      ap character (w.holds.held offset c e)
      ∙ ap next_of (
          sym e
          ∙ sym (get_elem?-append (w.buffered) (w.rest) offset lt')
          ∙ ap (λ l. get_elem? l offset) (sym (w.all)))

  peek_rounds-Shows :
      (n offset : ℕ) (p : Peeker S) (cs : List ℕ)
      → Shows p cs
      → offset ≤ p.max_lookahead
      → offset < n + p.size
      → (p' : Peeker S) × (peek_rounds next n offset p ≡ (next_of (get_elem? cs offset), p'))
        × Shows p' cs
  unfolding peek_rounds
  peek_rounds-Shows zero offset p cs w le lt =
      (p, ap (λ x. (x, p)) (at_buffered offset p cs w (omega arith)), w)
  peek_rounds-Shows (suc n) offset p cs w le lt = elim (Bool-cases (ltb (p.size) (offset + 1))) [
    | inr b ↦
        (p, rw (b, peek_rounds) (ap (λ x. (x, p)) (at_buffered offset p cs w (ground arith))), w)
    | inl b ↦ more (w.rest) (w.gives) (w.all) b (peek_rounds-Shows n offset)
  ]
    where
      more :
          (rest : List ℕ)
          → text.Gives (p.stream) rest
          → cs ≡ w.buffered ++ rest
          → ltb (p.size) (offset + 1) ≡ true
          → ((p : Peeker S) (cs : List ℕ)
              → Shows p cs
              → offset ≤ p.max_lookahead
              → offset < n + p.size
              → (p' : Peeker S) × (peek_rounds next n offset p
                  ≡ (next_of (get_elem? cs offset), p'))
                × Shows p' cs)
          → (p' : Peeker S) × (peek_rounds next (suc n) offset p
              ≡ (next_of (get_elem? cs offset), p'))
            × Shows p' cs
      more [] g all b ih =
          let p' = record p { stream = (next (p.stream)).1 } in
          (
            p',
            rw (b, text.next_eq (p.stream) [] g, peek_rounds)
                (ap (λ x. (next_of x, p'))
                  (sym (
                    ap (λ l. get_elem? l offset) (all ∙ append-nil (w.buffered))
                    ∙ get_elem?-le (w.buffered) offset (ground (arith, w.holds.sized))))),
            record {
              buffered = w.buffered;
              holds = same_buffer p (next (p.stream)).1 (w.buffered) (w.holds);
              rest = [];
              gives = text.next_gives (p.stream) [] g;
              all = all;
            },
          )
      more (c ∷ rest) g all b ih =
          let p₁ = record p { stream = (next (p.stream)).1 } in
          let (p', e, w') =
            ih (push next c p₁) cs
              (record {
                buffered = w.buffered ++ c ∷ [];
                holds =
                    push-Holds next p₁ (w.buffered) c
                      (same_buffer p (next (p.stream)).1 (w.buffered) (w.holds))
                      (ground (arith, w.holds.lookahead));
                rest = rest;
                gives = text.next_gives (p.stream) (c ∷ rest) g;
                all = all ∙ sym (append_assoc (w.buffered) (c ∷ []) rest);
              })
              le (omega arith) in
          (p', rw (b, text.next_eq (p.stream) (c ∷ rest) g, peek_rounds) e, w')

  -- `peek` at an offset up to the largest gives the character at that offset of the text, or none
  -- where the text is shorter, and the peeker still has the whole text to give.
  pub peek-next_of :
      (offset : ℕ) (p : Peeker S) (cs : List ℕ)
      → Shows p cs
      → offset ≤ p.max_lookahead
      → (p' : Peeker S) × (peek next offset p ≡ (next_of (get_elem? cs offset), p')) × Shows p' cs
  unfolding peek
  peek-next_of offset p cs w le = peek_rounds-Shows (suc offset) offset p cs w le (omega arith)

  -- `read` gives the first character of the text, or none at its end, and the peeker then has the rest
  -- to give.
  pub read-next_of :
      (p : Peeker S) (cs : List ℕ)
      → Shows p cs
      → (p' : Peeker S) × (read next p ≡ (next_of (get_elem? cs 0), p')) × Shows p' (drop 1 cs)
  unfolding read
  read-next_of p cs w = go (w.buffered) (w.holds) (w.all)
    where
      go :
          (xs : List ℕ)
          → Holds p xs
          → cs ≡ xs ++ w.rest
          → (p' : Peeker S) × (read next p ≡ (next_of (get_elem? cs 0), p')) × Shows p' (drop 1 cs)
      go [] h all =
          let p' = record p { stream = (next (p.stream)).1 } in
          (
            p',
            rw (size_zero, read)
                (ap (λ x. (x, p'))
                  (text.next_eq (p.stream) (w.rest) (w.gives)
                    ∙ ap (λ l. next_of (get_elem? l 0)) (sym all))),
            record {
              buffered = [];
              holds = same_buffer p (next (p.stream)).1 [] h;
              rest = drop 1 (w.rest);
              gives = text.next_gives (p.stream) (w.rest) (w.gives);
              all = ap (drop 1) all;
            },
          )
        where
          size_zero : (p.size == 0) ≡ true
          size_zero = ground (arith, h.sized)
      go (c ∷ xs) h all =
          let p' = record p { head = bit_and (p.head + 1) (p.capacity - 1); size = p.size - 1 } in
          let (first, h') = pop-Holds p c xs h in
          (
            p',
            rw (size_suc, read)
                (ap (λ x. (character x, p')) first
                  ∙ ap (λ l. (next_of (get_elem? l 0), p')) (sym all)),
            record {
              buffered = xs;
              holds = h';
              rest = w.rest;
              gives = w.gives;
              all = ap (drop 1) all;
            },
          )
        where
          size_suc : (p.size == 0) ≡ false
          size_suc = ground (arith, h.sized)
