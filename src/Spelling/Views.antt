-- ===== src/Spelling/Views.antt =====
-- The texts of the entries of a spelling table (code/spelling/include/spelling/spelling.h) when bytes or
-- entries are added.
use basedlang.Prelude.{
  ℕ, zero, suc, ◌+◌, ◌-◌, ◌≤◌, ◌≡◌, ◌≢◌, refl, sym, ap, ◌∙◌, Option, none, some, List, [], ◌∷◌,
  ◌++◌, length, get_elem?, get_elem?-append, get_elem?-append-length, take, drop, arith,
}
use basedlang.Spelling.Table.{Entry, entry_at, text_of}

pub drop-append : (bs more : List ℕ) → drop (length bs) (bs ++ more) ≡ more
drop-append [] more = refl
drop-append (b ∷ bs) more = drop-append bs more

pub take-append : (bs more : List ℕ) → take (length bs) (bs ++ more) ≡ bs
take-append [] more = refl
take-append (b ∷ bs) more = ap (λ l. b ∷ l) (take-append bs more)

pub take-length : (bs : List ℕ) → take (length bs) bs ≡ bs
take-length [] = refl
take-length (b ∷ bs) = ap (λ l. b ∷ l) (take-length bs)

view-append :
    (o n : ℕ) (bs more : List ℕ)
    → o + n ≤ length bs
    → take n (drop o (bs ++ more)) ≡ take n (drop o bs)
view-append zero zero bs more h = refl
view-append zero (suc n) [] more h = absurd (omega arith)
view-append zero (suc n) (b ∷ bs) more h =
    ap (λ l. b ∷ l) (view-append zero n bs more (omega arith))
view-append (suc o) n [] more h = absurd (omega arith)
view-append (suc o) n (b ∷ bs) more h = view-append o n bs more (omega arith)

-- Every entry lies inside the bytes.
abbrev pub Within : List ℕ → List Entry → Type 0
Within bytes entries =
    (i : ℕ) (e : Entry) → get_elem? entries i ≡ some e → e.offset + e.text_length ≤ length bytes

-- The texts of entries stay when bytes and entries are added.
pub text_of-append :
    (bytes more : List ℕ) (entries es : List Entry) (s : ℕ)
    → Within bytes entries
    → s ≢ 0
    → s ≤ length entries
    → text_of bytes entries s ≡ text_of (bytes ++ more) (entries ++ es) s
text_of-append bytes more entries es s w ns le =
    same (get_elem? entries (s - 1)) refl
    ∙ ap (entry_at (bytes ++ more)) (sym (get_elem?-append entries es (s - 1) (omega arith)))
  where
    same :
        (o : Option Entry)
        → get_elem? entries (s - 1) ≡ o
        → entry_at bytes (get_elem? entries (s - 1))
          ≡ entry_at (bytes ++ more) (get_elem? entries (s - 1))
    same none q = rw q refl
    same (some e) q = rw q (sym (view-append (e.offset) (e.text_length) bytes more (w (s - 1) e q)))

-- The text of the entry that is added.
pub text_of-added :
    (bytes text : List ℕ) (entries : List Entry)
    → text_of
        (bytes ++ text)
        (entries ++ (record { offset = length bytes; text_length = length text }) ∷ [])
        (suc (length entries))
      ≡ text
text_of-added bytes text entries =
    ap
      (λ k. entry_at (bytes ++ text) (
        get_elem? (entries ++ (record { offset = length bytes; text_length = length text }) ∷ [])
          k))
      (omega arith)
    ∙ ap (entry_at (bytes ++ text)) (
        get_elem?-append-length entries []
          (record { offset = length bytes; text_length = length text }))
    ∙ ap (take (length text)) (drop-append bytes text)
    ∙ take-length text
