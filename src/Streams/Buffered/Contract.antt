-- ===== src/Streams/Buffered/Contract.antt =====
-- The buffered stream (code/streams/include/streams/buffered_input_stream.h) keeps the contract of
-- `Input_stream` (code/streams/include/streams/input_stream.h) that it asks of the wrapped one.
use basedlang.Prelude.{
  ℕ, zero, suc, ◌+◌, ◌-◌, ◌≤◌, ◌<◌, ◌≡◌, refl, sym, ap, ◌∙◌, true, false, ltb, Option, some, List,
  [], ◌∷◌, ◌++◌, length, length-append, length-take, length-drop, take-append-drop, append_assoc,
  take, drop, arith, Bool-cases, inl, inr, ◌⊎◌,
}
use basedlang.Streams.Buffered.{Buffered, copy}

-- What a stream gives: a part of its bytes from the front, no more than it is asked for, and something
-- if it is asked for something and has not ended.
pub record Contract (S : Type 0) (read : S → ℕ → List ℕ × S) : Type 1 where
  pub Gives : S → List ℕ → Type 0
  pub reads :
      (s : S) (bs : List ℕ) (n : ℕ)
      → Gives s bs
      → (rest : List ℕ) × (bs ≡ (read s n).0 ++ rest)
        × Gives (read s n).1 rest
        × (length (read s n).0 ≤ n)
        × (0 < n → 0 < length bs → 0 < length (read s n).0)

pub drop-length : (xs : List ℕ) → drop (length xs) xs ≡ []
drop-length [] = refl
drop-length (x ∷ xs) = drop-length xs

drop-nil : (n : ℕ) → drop {A = ℕ} n [] ≡ []
drop-nil zero = refl
drop-nil (suc n) = refl

suc-add : (a b : ℕ) → suc a + b ≡ suc (a + b)
suc-add a b = omega arith

zero-add : (b : ℕ) → 0 + b ≡ b
zero-add b = omega arith

drop-add : (n m : ℕ) (xs : List ℕ) → drop (n + m) xs ≡ drop m (drop n xs)
drop-add n m [] = drop-nil (n + m) ∙ sym (ap (drop m) (drop-nil n) ∙ drop-nil m)
drop-add zero m (x ∷ xs) = ap (λ k. drop k (x ∷ xs)) (zero-add m)
drop-add (suc n) m (x ∷ xs) = ap (λ k. drop k (x ∷ xs)) (suc-add n m) ∙ drop-add n m xs

module _ {S : Type 0} (read : S → ℕ → List ℕ × S) (c : Contract S read) where
  -- The bytes that the buffered stream has yet to give.
  pub record Holds (b : Buffered S) (bs : List ℕ) : Type 0 where
    pub inside : b.pos ≤ length (b.filled)
    pub rest : List ℕ
    pub gives : c.Gives (b.stream) rest
    pub all : bs ≡ drop (b.pos) (b.filled) ++ rest

  -- How a read goes on from the bytes that are in the caller's buffer.
  pub record Ends (requested : ℕ) (out bs : List ℕ) (r : Option (List ℕ × Buffered S))
      : Type 0 where
    pub got : List ℕ
    pub left : List ℕ
    pub b : Buffered S
    pub ends : r ≡ some (out ++ got, b)
    pub split : bs ≡ got ++ left
    pub holds : Holds b left
    pub fits : length out + length got ≤ requested
    pub gets : 0 < length bs → 0 < length out + length got

  module _ (n requested : ℕ) (next : List ℕ → Buffered S → Option (List ℕ × Buffered S))
      (more : (out : List ℕ) (b : Buffered S) (bs : List ℕ)
        → Holds b bs
        → length out < requested
        → requested - length out < n
        → Ends requested out bs (next out b)) where
    pub copy-Ends :
        (out : List ℕ) (b : Buffered S) (bs : List ℕ)
        → Holds b bs
        → b.pos < length (b.filled)
        → length out < requested
        → requested - length out < suc n
        → Ends requested out bs (copy read next requested out b)
    copy-Ends out b bs h some_left room rounds =
        go (Bool-cases (ltb (length (b.filled) - b.pos) (requested - length out)))
      where
        size : length (drop (b.pos) (b.filled)) ≡ length (b.filled) - b.pos
        size = length-drop (b.pos) (b.filled)

        all_read : Holds (record b { pos = length (b.filled) }) (h.rest)
        all_read = record {
          inside = omega arith;
          rest = h.rest;
          gives = h.gives;
          all = ap (λ xs. xs ++ h.rest) (sym (drop-length (b.filled)));
        }

        longer :
            (ltb (length (b.filled) - b.pos) (requested - length out)) ≡ true
            → Ends requested
                (out ++ drop (b.pos) (b.filled))
                (h.rest)
                (next (out ++ drop (b.pos) (b.filled)) (record b { pos = length (b.filled) }))
            → Ends requested out bs (copy read next requested out b)
        longer e r = record {
          got = drop (b.pos) (b.filled) ++ r.got;
          left = r.left;
          b = r.b;
          ends = rw e (
              r.ends
              ∙ ap (λ xs. some (xs, r.b)) (append_assoc out (drop (b.pos) (b.filled)) (r.got)));
          split =
              h.all
              ∙ ap (λ xs. drop (b.pos) (b.filled) ++ xs) (r.split)
              ∙ sym (append_assoc (drop (b.pos) (b.filled)) (r.got) (r.left));
          holds = r.holds;
          fits = omega (
            arith,
            r.fits,
            length-append out (drop (b.pos) (b.filled)),
            length-append (drop (b.pos) (b.filled)) (r.got),
          );
          gets =
              λ _. omega (arith, size, some_left, length-append (drop (b.pos) (b.filled)) (r.got));
        }

        enough :
            (ltb (length (b.filled) - b.pos) (requested - length out)) ≡ false
            → Ends requested out bs (copy read next requested out b)
        enough e = record {
          got = take (requested - length out) (drop (b.pos) (b.filled));
          left = drop (requested - length out) (drop (b.pos) (b.filled)) ++ h.rest;
          b = record b { pos = b.pos + (requested - length out) };
          ends = rw e refl;
          split =
              h.all
              ∙ ap (λ xs. xs ++ h.rest)
                  (sym (take-append-drop (requested - length out) (drop (b.pos) (b.filled))))
              ∙ append_assoc (take (requested - length out) (drop (b.pos) (b.filled)))
                  (drop (requested - length out) (drop (b.pos) (b.filled))) (h.rest);
          holds = record {
            inside = ground arith;
            rest = h.rest;
            gives = h.gives;
            all =
                ap (λ xs. xs ++ h.rest)
                  (sym (drop-add (b.pos) (requested - length out) (b.filled)));
          };
          fits = omega (arith, length-take (requested - length out) (drop (b.pos) (b.filled)));
          gets = λ _.
              ground (arith, size, length-take (requested - length out) (drop (b.pos) (b.filled)));
        }

        go :
            (ltb (length (b.filled) - b.pos) (requested - length out) ≡ true)
              ⊎ (ltb (length (b.filled) - b.pos) (requested - length out) ≡ false)
            → Ends requested out bs (copy read next requested out b)
        go (inl e) = longer e (
            more (out ++ drop (b.pos) (b.filled)) (record b { pos = length (b.filled) }) (h.rest)
              all_read (ground (arith, e, size, length-append out (drop (b.pos) (b.filled))))
              (ground (arith, e, size, some_left, length-append out (drop (b.pos) (b.filled)))))
        go (inr e) = enough e
