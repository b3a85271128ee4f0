-- ===== src/Streams/Buffered/Reads.antt =====
-- `read_bytes` of the buffered stream (code/streams/include/streams/buffered_input_stream.h): what it
-- gives.
use basedlang.Prelude.{
  ℕ, zero, suc, ◌-◌, ◌≤◌, ◌<◌, ◌≡◌, refl, sym, ap, ◌∙◌, subst, true, ◌==◌, leb, some, List, [],
  ◌++◌, length, append-nil, drop, arith, Bool-cases, inl, inr, ◌⊎◌,
}
use native.Mathlib.Decide.{ℕ_discrete}
use basedlang.Streams.Buffered.{Buffered, read_rounds, read_bytes}
use basedlang.Streams.Buffered.Contract.{Contract, Holds, Ends, copy-Ends, drop-length}

module _ {S : Type 0} (read : S → ℕ → List ℕ × S) (c : Contract S read) where
  read_rounds-Ends :
      (n requested : ℕ) (out : List ℕ) (b : Buffered S) (bs : List ℕ)
      → Holds read c b bs
      → length out < requested
      → requested - length out < n
      → Ends read c requested out bs (read_rounds read n requested out b)
  unfolding read_rounds
  read_rounds-Ends zero requested out b bs h room rounds = absurd (omega arith)
  read_rounds-Ends (suc n) requested out b bs h room rounds =
      elim (Bool-cases (b.pos == length (b.filled))) [
        | inr more ↦
            rw (more, read_rounds)
              (copy-Ends read c n requested (read_rounds read n requested)
                (read_rounds-Ends n requested) out b bs h (ground (arith, h.inside)) room rounds)
        | inl done ↦ refilled done (read_rounds-Ends n requested) (
            sym (
              h.all
              ∙ ap (λ k. drop k (b.filled) ++ h.rest) (pos_eq done)
              ∙ ap (λ xs. xs ++ h.rest) (drop-length (b.filled))))
      ]
    where
      pos_eq : (b.pos == length (b.filled)) ≡ true → b.pos ≡ length (b.filled)
      pos_eq e = ground arith

      refilled :
          (b.pos == length (b.filled)) ≡ true
          → ((out : List ℕ) (b : Buffered S) (bs : List ℕ)
              → Holds read c b bs
              → length out < requested
              → requested - length out < n
              → Ends read c requested out bs (read_rounds read n requested out b))
          → h.rest ≡ bs
          → Ends read c requested out bs (read_rounds read (suc n) requested out b)
      refilled done more e = elim (Bool-cases (leb 4096 (requested - length out))) [
        | inl large ↦
            let (rest, q, g, le, some_got) =
              c.reads (b.stream) bs (requested - length out)
                (subst (c.Gives (b.stream)) e (h.gives)) in
            record {
              got = (read (b.stream) (requested - length out)).0;
              left = rest;
              b = record b { stream = (read (b.stream) (requested - length out)).1 };
              ends = rw (done, large, read_rounds) refl;
              split = q;
              holds = record {
                inside = h.inside;
                rest = rest;
                gives = g;
                all =
                    ap (λ xs. xs ++ rest)
                      (sym (ap (λ k. drop k (b.filled)) (pos_eq done) ∙ drop-length (b.filled)));
              };
              fits = omega (arith, le);
              gets = λ p. omega (arith, some_got (omega arith) p);
            }
        | inr small ↦
            let (rest, q, g, le, some_got) =
              c.reads (b.stream) bs 4096 (subst (c.Gives (b.stream)) e (h.gives)) in
            let b' : Buffered S = record {
              stream = (read (b.stream) 4096).1;
              filled = (read (b.stream) 4096).0;
              pos = 0;
            } in
            let held : Holds read c b' bs = record {
              inside = omega arith;
              rest = rest;
              gives = g;
              all = q;
            } in
            elim (Bool-cases (length (read (b.stream) 4096).0 == 0)) [
              | inl z ↦ record {
                got = [];
                left = bs;
                b = b';
                ends =
                    rw (done, small, z, read_rounds)
                      (ap (λ xs. some (xs, b')) (sym (append-nil out)));
                split = refl;
                holds = held;
                fits = omega arith;
                gets = λ p. absurd (ground (arith, some_got (omega arith) p));
              }
              | inr nz ↦
                  rw (done, small, nz, read_rounds)
                    (copy-Ends read c n requested (read_rounds read n requested) more out b' bs held
                      (ground arith) room rounds)
            ]
      ]

  -- Over a wrapped stream that keeps the contract, a read ends, and gives a part of the bytes from the
  -- front, no more than is asked for, and something if something is asked for and the bytes have not
  -- ended; the buffered stream has the rest to give.
  pub read_bytes-Contract :
      (requested : ℕ) (b : Buffered S) (bs : List ℕ)
      → Holds read c b bs
      → (got rest : List ℕ) × (b' : Buffered S) × (read_bytes read requested b ≡ some (got, b'))
        × (bs ≡ got ++ rest)
        × Holds read c b' rest
        × (length got ≤ requested)
        × ((0 < length got) ⊎ ((requested ≡ 0) ⊎ (length bs ≡ 0)))
  unfolding read_bytes
  read_bytes-Contract requested b bs h = elim (Bool-cases (requested == 0)) [
    | inl z ↦ ([], bs, b, rw (z, read_bytes) refl, refl, h, omega arith, inr (inl (ground arith)))
    | inr nz ↦
        let r = read_rounds-Ends (suc requested) requested [] b bs h (ground arith) (omega arith) in
        (
          r.got,
          r.left,
          r.b,
          rw (nz, read_bytes) (r.ends),
          r.split,
          r.holds,
          omega (arith, r.fits),
          something r,
        )
  ]
    where
      something :
          (r : Ends read c requested [] bs (read_rounds read (suc requested) requested [] b))
          → (0 < length (r.got)) ⊎ ((requested ≡ 0) ⊎ (length bs ≡ 0))
      something r = elim (ℕ_discrete (length bs) 0) [
        | yes z ↦ inr (inr z)
        | no nz ↦ inl (omega (arith, r.gets (omega arith)))
      ]
