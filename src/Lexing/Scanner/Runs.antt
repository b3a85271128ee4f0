-- ===== src/Lexing/Scanner/Runs.antt =====
-- Runs of the loops of the scanner (code/lexing/src/lexeme_stream.cpp) over words and digits.
use basedlang.Prelude.{
  ℕ, ◌≡◌, refl, sym, ap, ◌∙◌, true, false, List, [], ◌∷◌, ◌++◌, ◌==◌, arith, append_assoc,
  append-nil,
}
use basedlang.Lexing.Token.{Token, Location, next_column}
use basedlang.Lexing.Scanner.{
  make_lexeme, is_digit, is_word_start, is_word, is_blank, word_token, word, suffix, fraction,
  number, scan,
}
use basedlang.Lexing.Scanner.Grammar.{
  word_character, digit, AllOf, IsDigits, is_float_letter, is_space, along,
}

-- A lexeme ends here: the text ends, or a blank or newline comes.
abbrev pub Delimited : List ℕ → Type 0
Delimited [] = Unit
Delimited (c ∷ cs) = is_space c ≡ true

not_word : (c : ℕ) → is_space c ≡ true → is_word c ≡ false
not_word c h = ground arith

not_digit : (c : ℕ) → is_space c ≡ true → is_digit c ≡ false
not_digit c h = ground arith

snoc-append : (text cs : List ℕ) (c : ℕ) → (text ++ c ∷ []) ++ cs ≡ text ++ c ∷ cs
snoc-append text cs c = append_assoc text (c ∷ []) cs

module _ (start : Location) (rest : List ℕ) (ends : Delimited rest) where
  pub word_stop :
      (text : List ℕ) (l : Location)
      → word text start rest l ≡ make_lexeme (word_token text) text start rest l
  unfolding word
  word_stop text l = go rest ends
    where
      go :
          (r : List ℕ)
          → Delimited r
          → word text start r l ≡ make_lexeme (word_token text) text start r l
      go [] d = refl
      go (c ∷ r) d = rw (not_word c d, word) refl

  pub word_run :
      (text cs : List ℕ) (l : Location)
      → AllOf word_character cs
      → word text start (cs ++ rest) l
        ≡ make_lexeme (word_token (text ++ cs)) (text ++ cs) start rest (along cs l)
  unfolding word
  word_run text [] l all =
      word_stop text l ∙ ap (λ t. make_lexeme (word_token t) t start rest l) (sym (append-nil text))
  word_run text (c ∷ cs) l all =
      rw (all.0, word) (word_run (text ++ c ∷ []) cs (next_column l) (all.1))
      ∙ ap (λ t. make_lexeme (word_token t) t start rest (along cs (next_column l)))
          (snoc-append text cs c)

  suffix_stop :
      (text : List ℕ) (l : Location)
      → suffix false text start rest l ≡ make_lexeme Token.int_literal text start rest l
  unfolding suffix
  suffix_stop text l = go rest ends
    where
      go :
          (r : List ℕ)
          → Delimited r
          → suffix false text start r l ≡ make_lexeme Token.int_literal text start r l
      go [] d = refl
      go (c ∷ r) d = rw (not_digit c d, suffix) refl

  pub suffix_run :
      (text cs : List ℕ) (l : Location)
      → AllOf digit cs
      → suffix false text start (cs ++ rest) l
        ≡ make_lexeme Token.int_literal (text ++ cs) start rest (along cs l)
  unfolding suffix
  suffix_run text [] l all =
      suffix_stop text l
      ∙ ap (λ t. make_lexeme Token.int_literal t start rest l) (sym (append-nil text))
  suffix_run text (c ∷ cs) l all =
      rw (all.0, suffix) (suffix_run (text ++ c ∷ []) cs (next_column l) (all.1))
      ∙ ap (λ t. make_lexeme Token.int_literal t start rest (along cs (next_column l)))
          (snoc-append text cs c)

pub along-append : (xs ys : List ℕ) (l : Location) → along (xs ++ ys) l ≡ along ys (along xs l)
along-append [] ys l = refl
along-append (x ∷ xs) ys l = along-append xs ys (next_column l)

pub number_run :
    (text ds tail : List ℕ) (start l : Location)
    → AllOf digit ds
    → number text start (ds ++ tail) l ≡ number (text ++ ds) start tail (along ds l)
unfolding number
number_run text [] tail start l all = ap (λ t. number t start tail l) (sym (append-nil text))
number_run text (c ∷ ds) tail start l all =
    rw (all.0, number) (number_run (text ++ c ∷ []) ds tail start (next_column l) (all.1))
    ∙ ap (λ t. number t start tail (along ds (next_column l))) (snoc-append text ds c)

pub fraction_run :
    (text ds tail : List ℕ) (start l : Location)
    → AllOf digit ds
    → fraction text start (ds ++ tail) l ≡ fraction (text ++ ds) start tail (along ds l)
unfolding fraction
fraction_run text [] tail start l all = ap (λ t. fraction t start tail l) (sym (append-nil text))
fraction_run text (c ∷ ds) tail start l all =
    rw (all.0, fraction) (fraction_run (text ++ c ∷ []) ds tail start (next_column l) (all.1))
    ∙ ap (λ t. fraction t start tail (along ds (next_column l))) (snoc-append text ds c)

module _ (start : Location) (rest : List ℕ) (ends : Delimited rest) (text : List ℕ)
    (l : Location) where
  pub number_stop : number text start rest l ≡ make_lexeme Token.int_literal text start rest l
  unfolding number
  number_stop = go rest ends
    where
      go :
          (r : List ℕ)
          → Delimited r
          → number text start r l ≡ make_lexeme Token.int_literal text start r l
      go [] d = refl
      go (c ∷ r) d = rw (not_digit c d, number) (ground arith)

  pub fraction_stop : fraction text start rest l ≡ make_lexeme Token.float_literal text start rest l
  unfolding fraction
  fraction_stop = go rest ends
    where
      go :
          (r : List ℕ)
          → Delimited r
          → fraction text start r l ≡ make_lexeme Token.float_literal text start r l
      go [] d = refl
      go (c ∷ r) d = rw (not_digit c d, fraction) (ground arith)

module _ (start : Location) (rest text : List ℕ) (l : Location) where
  pub number_letter :
      (c : ℕ)
      → is_float_letter c ≡ true
      → number text start (c ∷ rest) l
        ≡ make_lexeme Token.float_literal (text ++ c ∷ []) start rest (next_column l)
  unfolding number
  number_letter c h = rw (letter c h, number) (ground arith)
    where
      letter : (c : ℕ) → is_float_letter c ≡ true → is_digit c ≡ false
      letter c h = ground arith

  pub fraction_letter :
      (c : ℕ)
      → is_float_letter c ≡ true
      → fraction text start (c ∷ rest) l
        ≡ make_lexeme Token.float_literal (text ++ c ∷ []) start rest (next_column l)
  unfolding fraction
  fraction_letter c h = rw (letter c h, fraction) (ground arith)
    where
      letter : (c : ℕ) → is_float_letter c ≡ true → is_digit c ≡ false
      letter c h = ground arith

  pub number_point :
      number text start (b'.' ∷ rest) l ≡ fraction (text ++ b'.' ∷ []) start rest (next_column l)
  unfolding number
  number_point = refl

  pub number-suffix :
      (d : ℕ)
      → is_digit d ≡ true
      → number text start (b'i' ∷ d ∷ rest) l
        ≡ suffix false ((text ++ b'i' ∷ []) ++ d ∷ []) start rest (next_column (next_column l))
  unfolding number suffix
  number-suffix d h = rw (h, suffix) refl

-- The first character decides the state.
pub scan-word :
    (c : ℕ) (cs : List ℕ) (l : Location)
    → is_word_start c ≡ true
    → scan (c ∷ cs) l ≡ word (c ∷ []) l cs (next_column l)
unfolding scan
scan-word c cs l h = rw (newline c h, blank c h, h, scan) refl
  where
    newline : (c : ℕ) → is_word_start c ≡ true → (c == b'\n') ≡ false
    newline c h = ground arith

    blank : (c : ℕ) → is_word_start c ≡ true → is_blank c ≡ false
    blank c h = ground arith

scan-number :
    (c : ℕ) (cs : List ℕ) (l : Location)
    → is_digit c ≡ true
    → scan (c ∷ cs) l ≡ number (c ∷ []) l cs (next_column l)
unfolding scan
scan-number c cs l h = rw (newline c h, blank c h, other c h, h, scan) refl
  where
    newline : (c : ℕ) → is_digit c ≡ true → (c == b'\n') ≡ false
    newline c h = ground arith

    blank : (c : ℕ) → is_digit c ≡ true → is_blank c ≡ false
    blank c h = ground arith

    other : (c : ℕ) → is_digit c ≡ true → is_word_start c ≡ false
    other c h = ground arith

pub scan_digits :
    (ds tail : List ℕ) (l : Location)
    → IsDigits ds
    → scan (ds ++ tail) l ≡ number ds l tail (along ds l)
scan_digits [] tail l h = absurd h
scan_digits (d ∷ ds) tail l h =
    scan-number d (ds ++ tail) l (h.0) ∙ number_run (d ∷ []) ds tail l (next_column l) (h.1)
