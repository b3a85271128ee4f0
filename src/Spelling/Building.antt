-- ===== src/Spelling/Building.antt =====
-- A `Builder` of a spelling table (code/spelling/include/spelling/spelling.h) against `intern`.
use basedlang.Prelude.{
  ℕ, zero, suc, ◌+◌, ◌-◌, ◌*◌, ◌^◌, ◌≤◌, ◌<◌, ◌≡◌, ◌≢◌, refl, sym, ap, ◌∙◌, Option, none, some,
  List, [], ◌++◌, length, length-append, append-nil, take, drop, arith,
}
use basedlang.Spelling.Buckets.{Buckets, home, probe_home}
use basedlang.Spelling.Probing.{Outcome, at_handle, at_free}
use basedlang.Spelling.Placing.{probe-agree}
use basedlang.Spelling.Placed.{Placed-Outcome}
use basedlang.Spelling.Table.{
  Table, text_of, to_u32, refill, make_room, add_entry, intern, builder, append, build_view,
  cancel_build, finalize,
}
use basedlang.Spelling.Views.{drop-append, take-append, take-length, text_of-append}
use basedlang.Spelling.Valid.{IsValid}

module _ (t : Table) (text : List ℕ) (v : IsValid t)
    (fit : length (t.bytes) + length text < 2 ^ 32) where
  abbrev f : ℕ → List ℕ
  f = text_of (t.bytes) (t.entries)

  abbrev g : ℕ → List ℕ
  g = text_of (t.bytes ++ text) (t.entries)

  agree : (s : ℕ) → s ≢ 0 → s ≤ length (t.entries) → f s ≡ g s
  agree s ns le =
      text_of-append (t.bytes) text (t.entries) [] s (v.within) ns le
      ∙ ap (λ es. text_of (t.bytes ++ text) es s) (append-nil (t.entries))

  start_eq : to_u32 (length (t.bytes)) ≡ length (t.bytes)
  start_eq = omega (arith, v.bytes_fit)

  build_view-append : build_view (append (builder t) text) ≡ text
  build_view-append =
      ap (λ o. take (to_u32 (length (t.bytes ++ text) + 2 ^ 64 - o)) (drop o (t.bytes ++ text)))
        start_eq
      ∙ ap (λ n. take n (drop (length (t.bytes)) (t.bytes ++ text))) number
      ∙ ap (take (length text)) (drop-append (t.bytes) text)
      ∙ take-length text
    where
      number : to_u32 (length (t.bytes ++ text) + 2 ^ 64 - length (t.bytes)) ≡ length text
      number = omega (arith, length-append (t.bytes) text)

  refill-append :
      (count i : ℕ)
      → i ≤ length (t.entries)
      → refill (t.bytes ++ text) (t.entries) count i ≡ refill (t.bytes) (t.entries) count i
  unfolding refill
  refill-append count zero le = refl
  refill-append count (suc i) le =
      go (refill (t.bytes) (t.entries) count i) refl (refill-append count i (omega arith))
    where
      go :
          (o : Option Buckets)
          → refill (t.bytes) (t.entries) count i ≡ o
          → refill (t.bytes ++ text) (t.entries) count i ≡ refill (t.bytes) (t.entries) count i
          → refill (t.bytes ++ text) (t.entries) count (suc i)
            ≡ refill (t.bytes) (t.entries) count (suc i)
      go none q ih = rw (ih, q, refill) refl
      go (some b) q ih = rw (ih, q, sym (agree (suc i) (omega arith) le), refill) refl

  make_room-append :
      (index : ℕ)
      → make_room (t.bytes ++ text) (t.entries) (t.buckets) text index
        ≡ make_room (t.bytes) (t.entries) (t.buckets) text index
  unfolding make_room
  make_room-append index =
      rw (refill-append (t.buckets.count * 2) (length (t.entries)) (omega arith), make_room) refl

  probe-append : probe_home g text (t.buckets) ≡ probe_home f text (t.buckets)
  probe-append = sym (
      probe-agree f g text (t.buckets) (λ i ni. agree (t.buckets.slots i) ni (v.placed.bounded i))
        (t.buckets.count) (home text (t.buckets.count)))

  view_room :
      (index : ℕ)
      → make_room
          (t.bytes ++ text)
          (t.entries)
          (t.buckets)
          (build_view (append (builder t) text))
          index
        ≡ make_room (t.bytes) (t.entries) (t.buckets) text index
  view_room index =
      ap (λ x. make_room (t.bytes ++ text) (t.entries) (t.buckets) x index) build_view-append
      ∙ make_room-append index

  cancel_build-append : cancel_build (append (builder t) text) ≡ builder t
  cancel_build-append =
      ap (λ bs. record (builder t) { bytes = bs })
        (ap (λ n. take n (t.bytes ++ text)) start_eq ∙ take-append (t.bytes) text)

  -- Building a text and finalizing it gives what interning the text gives, in a well-formed table whose
  -- bytes and the text's fit in 32 bits.
  pub finalize-intern : finalize (append (builder t) text) ≡ intern (builder t) text
  unfolding finalize intern
  finalize-intern = go (Placed-Outcome f (length (t.entries)) (t.buckets) text (v.placed))
    where
      go :
          Outcome f text (t.buckets) (probe_home f text (t.buckets))
          → finalize (append (builder t) text) ≡ intern (builder t) text
      go (at_handle s i ns q e p) =
          rw (build_view-append, probe-append, p, finalize, intern)
            (ap (λ x. some (s, x)) cancel_build-append)
      go (at_free j lt z p) = room (make_room (t.bytes) (t.entries) (t.buckets) text j) refl
        where
          room :
              (o : Option (Buckets × ℕ))
              → make_room (t.bytes) (t.entries) (t.buckets) text j ≡ o
              → finalize (append (builder t) text) ≡ intern (builder t) text
          room none m =
              rw (build_view-append, probe-append, p, view_room j, m, finalize, intern) refl
          room (some r) m =
              rw (build_view-append, probe-append, p, view_room j, m, finalize, intern)
                (ap
                  (λ x. some (
                    add_entry (builder t) (t.bytes ++ text)
                      (record {
                        offset = to_u32 (length (t.bytes));
                        text_length = to_u32 (length x);
                      })
                      r))
                  build_view-append)
