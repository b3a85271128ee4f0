-- ===== src/Spelling/Interning.antt =====
-- `intern` (code/spelling/include/spelling/spelling.h) against the lookups.
use basedlang.Prelude.{
  ℕ, suc, ◌+◌, ◌*◌, ◌^◌, ◌≤◌, ◌<◌, ◌≡◌, ◌≢◌, refl, sym, ap, ◌∙◌, subst, some, List, [], ◌∷◌, ◌++◌,
  length, length-append, arith,
}
use basedlang.Spelling.Buckets.{Buckets, free, probe_home}
use basedlang.Spelling.Probing.{Outcome, at_handle, at_free}
use basedlang.Spelling.Placed.{Placed-Outcome}
use basedlang.Spelling.Table.{Entry, Table, text_of, to_u32, add_entry, make_room, intern, lookup}
use basedlang.Spelling.Views.{text_of-added}
use basedlang.Spelling.Refill.{Room, make_room-Room}
use basedlang.Spelling.Valid.{IsValid, agree, add_entry-IsValid}
use basedlang.Spelling.Lookups.{lookup-text_of, apart_found}

-- The table after the text has been interned under the handle: it is well-formed, the handle stands for
-- the text, and every other keeps its text.
pub record Interned (t : Table) (text : List ℕ) (s : ℕ) (t' : Table) : Type 0 where
  pub valid : IsValid t'
  pub looked_up : lookup t' s ≡ some text
  pub kept : (k : ℕ) (x : List ℕ) → lookup t k ≡ some x → lookup t' k ≡ some x

module _ (t : Table) (text : List ℕ) (v : IsValid t) (fit : length (t.bytes) + length text < 2 ^ 32)
    (small : suc (length (t.entries)) < 2 ^ 32) where
  abbrev f : ℕ → List ℕ
  f = text_of (t.bytes) (t.entries)

  abbrev entry : Entry
  entry = record { offset = length (t.bytes); text_length = length text }

  -- The table with a new entry for the text.
  abbrev pub added : Buckets → ℕ → Table
  added b j = (add_entry t (t.bytes ++ text) entry (b, j)).1

  length_entries : length (t.entries ++ entry ∷ []) ≡ suc (length (t.entries))
  length_entries = length-append (t.entries) (entry ∷ []) ∙ omega arith

  added-Interned :
      (b : Buckets) (j : ℕ)
      → suc (length (t.entries)) * 3 ≤ b.count * 2
      → Room f (length (t.entries)) text b j
      → Interned t text (suc (length (t.entries))) (added b j)
  added-Interned b j load r = record {
    valid = add_entry-IsValid t v text fit b j small load r;
    looked_up =
        (lookup-text_of (added b j) (suc (length (t.entries))) text).1
          (omega arith, omega (arith, length_entries), text_of-added (t.bytes) text (t.entries));
    kept = kept;
  }
    where
      kept : (k : ℕ) (x : List ℕ) → lookup t k ≡ some x → lookup (added b j) k ≡ some x
      kept k x h =
          let (nk, le, e) = (lookup-text_of t k x).0 h in
          (lookup-text_of (added b j) k x).1
            (nk, omega (arith, length_entries), sym (agree t v text fit k nk le) ∙ e)

  -- The numbers of the new entry fit in 32 bits.
  add_entry-added :
      (b : Buckets) (j : ℕ)
      → some (
          add_entry t
            (t.bytes ++ text)
            (record { offset = to_u32 (length (t.bytes)); text_length = to_u32 (length text) })
            (b, j))
        ≡ some (suc (length (t.entries)), added b j)
  add_entry-added b j =
      ap
        (λ x. some (
          add_entry t (t.bytes ++ text) (record { offset = x; text_length = to_u32 (length text) })
            (b, j)))
        offset_eq
      ∙ ap
          (λ x. some (
            add_entry t (t.bytes ++ text) (record { offset = length (t.bytes); text_length = x })
              (b, j)))
          length_eq
      ∙ ap (λ n. some (n, added b j)) value_eq
    where
      offset_eq : to_u32 (length (t.bytes)) ≡ length (t.bytes)
      offset_eq = omega arith

      length_eq : to_u32 (length text) ≡ length text
      length_eq = omega arith

      value_eq : to_u32 (length (t.entries ++ entry ∷ [])) ≡ suc (length (t.entries))
      value_eq = omega (arith, length_entries)

  -- Where the text has no handle yet, there is room for it.
  pub room :
      (j : ℕ)
      → j < t.buckets.count
      → t.buckets.slots j ≡ 0
      → probe_home f text (t.buckets) ≡ free j
      → (b : Buckets) × (i : ℕ) × (make_room (t.bytes) (t.entries) (t.buckets) text j ≡ some (b, i))
        × (suc (length (t.entries)) * 3 ≤ b.count * 2)
        × Room f (length (t.entries)) text b i
  room j lt z p =
      make_room-Room (t.bytes) (t.entries) (t.buckets) (v.placed) (v.entries_fit) text j
        (record { placed = v.placed; inside = lt; vacant = z; ends = p }) other
    where
      other : (s : ℕ) → s ≢ 0 → s ≤ length (t.entries) → f s ≢ text
      other s ns le e =
          apart_found s j
            (sym p ∙ ap (λ x. probe_home f x (t.buckets)) (sym e) ∙ v.placed.finds s ns le)

  -- In a well-formed table with room in its 32-bit offsets and handles, interning a text ends, with a
  -- handle that stands for the text in the resulting table, which is well-formed; what other handles
  -- stand for is kept.
  pub intern-Interned :
      (s : ℕ) × (t' : Table) × (intern t text ≡ some (s, t')) × Interned t text s t'
  unfolding intern
  intern-Interned = go (Placed-Outcome f (length (t.entries)) (t.buckets) text (v.placed))
    where
      go :
          Outcome f text (t.buckets) (probe_home f text (t.buckets))
          → (s : ℕ) × (t' : Table) × (intern t text ≡ some (s, t')) × Interned t text s t'
      go (at_handle s i ns q e p) = (
        s,
        t,
        rw (p, intern) refl,
        record {
          valid = v;
          looked_up =
              (lookup-text_of t s text).1
                (ns, subst (λ n. n ≤ length (t.entries)) q (v.placed.bounded i), e);
          kept = λ k x h. h;
        },
      )
      go (at_free j lt z p) =
          let (b, i, e, load, r) = room j lt z p in
          (
            suc (length (t.entries)),
            added b i,
            rw (p, e, intern) (add_entry-added b i),
            added-Interned b i load r,
          )
