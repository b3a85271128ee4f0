-- ===== src/Spelling/Valid.antt =====
-- Spelling tables (code/spelling/include/spelling/spelling.h) that are well-formed.
use basedlang.Prelude.{
  ℕ, suc, ◌+◌, ◌*◌, ◌^◌, ◌≤◌, ◌<◌, ◌≡◌, ◌≢◌, sym, ap, ◌∙◌, subst, List, [], ◌∷◌, ◌++◌, length,
  length-append, get_elem?, get_elem?-append, get_elem?-append-length, lt-of_get_elem?, arith,
  some-injective,
}
use native.Mathlib.Decide.{ℕ_discrete}
use basedlang.Mask.{one, double}
use basedlang.Spelling.Buckets.{Buckets, free, home, probe_home, assign}
use basedlang.Spelling.Placing.{probe-agree}
use basedlang.Spelling.Placed.{Placed, empty-Placed, assign-Placed, Placed-agree}
use basedlang.Spelling.Table.{Entry, Table, text_of, to_u32, add_entry, new}
use basedlang.Spelling.Views.{Within, text_of-append, text_of-added}
use basedlang.Spelling.Refill.{Room}

-- Offsets, lengths and handles fit in 32 bits, every entry lies inside the bytes, at most two thirds of
-- the buckets are in use, and every handle is found by its text.
pub record IsValid (t : Table) : Type 0 where
  pub bytes_fit : length (t.bytes) < 2 ^ 32
  pub entries_fit : length (t.entries) < 2 ^ 32
  pub within : Within (t.bytes) (t.entries)
  pub load : length (t.entries) * 3 ≤ t.buckets.count * 2
  pub placed : Placed (text_of (t.bytes) (t.entries)) (length (t.entries)) (t.buckets)

pub new-IsValid : IsValid new
unfolding new
new-IsValid = record {
  bytes_fit = omega arith;
  entries_fit = omega arith;
  within = λ i e h. absurd (ground arith);
  load = omega arith;
  placed =
      empty-Placed (text_of [] []) 32 (double 16 (double 8 (double 4 (double 2 (double 1 one)))));
}

module _ (t : Table) (v : IsValid t) (text : List ℕ)
    (fit : length (t.bytes) + length text < 2 ^ 32) where
  abbrev entry : Entry
  entry = record { offset = length (t.bytes); text_length = length text }

  abbrev entries : List Entry
  entries = t.entries ++ entry ∷ []

  abbrev f : ℕ → List ℕ
  f = text_of (t.bytes) (t.entries)

  abbrev g : ℕ → List ℕ
  g = text_of (t.bytes ++ text) entries

  pub agree : (s : ℕ) → s ≢ 0 → s ≤ length (t.entries) → f s ≡ g s
  agree s ns le = text_of-append (t.bytes) text (t.entries) (entry ∷ []) s (v.within) ns le

  length_entries : length entries ≡ suc (length (t.entries))
  length_entries = length-append (t.entries) (entry ∷ []) ∙ omega arith

  within : Within (t.bytes ++ text) entries
  within i e h = elim (ℕ_discrete i (length (t.entries))) [
    | yes q ↦
        subst (λ e. e.offset + e.text_length ≤ length (t.bytes ++ text)) (last q)
          (omega (arith, length-append (t.bytes) text))
    | no ne ↦ omega (
      arith,
      v.within i e (sym (get_elem?-append (t.entries) (entry ∷ []) i (before ne)) ∙ h),
      length-append (t.bytes) text,
    )
  ]
    where
      before : i ≢ length (t.entries) → i < length (t.entries)
      before ne = omega (arith, lt-of_get_elem? entries i e h, length_entries)

      last : i ≡ length (t.entries) → entry ≡ e
      last q =
          some-injective entry e (
            sym (get_elem?-append-length (t.entries) [] entry) ∙ ap (get_elem? entries) (sym q) ∙ h)

  -- The table with the text added, in a free bucket for it.
  pub add_entry-IsValid :
      (b : Buckets) (j : ℕ)
      → suc (length (t.entries)) < 2 ^ 32
      → suc (length (t.entries)) * 3 ≤ b.count * 2
      → Room f (length (t.entries)) text b j
      → IsValid (add_entry t (t.bytes ++ text) entry (b, j)).1
  add_entry-IsValid b j small load r = record {
    bytes_fit = omega (arith, length-append (t.bytes) text);
    entries_fit = omega (arith, length_entries);
    within = within;
    load = omega (arith, length_entries);
    placed =
        subst (λ n. Placed g n (assign b j (to_u32 n))) (sym length_entries)
          (subst (λ n. Placed g (suc (length (t.entries))) (assign b j n)) (omega arith)
            (assign-Placed g (length (t.entries)) b j
              (Placed-agree f g (length (t.entries)) b agree (r.placed)) (omega arith) (r.inside)
              (r.vacant) ends));
  }
    where
      ends : probe_home g (g (suc (length (t.entries)))) b ≡ free j
      ends =
          ap (λ x. probe_home g x b) (text_of-added (t.bytes) text (t.entries))
          ∙ sym (
              probe-agree f g text b (λ i ni. agree (b.slots i) ni (r.placed.bounded i)) (b.count)
                (home text (b.count)))
          ∙ r.ends
