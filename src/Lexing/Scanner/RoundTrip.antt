-- ===== src/Lexing/Scanner/RoundTrip.antt =====
-- What is spelled as a token is scanned as this token (code/lexing/src/lexeme_stream.cpp).
use basedlang.Prelude.{
  ℕ, ◌≡◌, refl, sym, ap, ◌∙◌, subst, true, List, [], ◌∷◌, ◌++◌, ◌==◌, false, arith, Bool-cases, inl,
  inr, append_assoc,
}
use basedlang.Lexing.Token.{Token, Location, next_line, next_column}
use basedlang.Lexing.Scanner.{make_lexeme, is_blank, word_token, fraction, number, scan}
use basedlang.Lexing.Scanner.Grammar.{
  AllOf, IsWord, digit, IsDigits, is_float_letter, Spelled, is_space, along, past, token_at,
}
use basedlang.Lexing.Scanner.Runs.{
  Delimited, word_run, suffix_run, fraction_run, number_stop, fraction_stop, number_letter,
  fraction_letter, number_point, number-suffix, scan-word, scan_digits, along-append,
}
use basedlang.Lexing.Scanner.Words.{keyword-word_token, identifier-word_token}
use basedlang.Lexing.Scanner.Symbols.{scan_symbol}

module _ (rest : List ℕ) (l : Location) (ends : Delimited rest) where
  -- The text and what follows are scanned as the token.
  abbrev Scanned : Token → List ℕ → Type 0
  Scanned t text = scan (text ++ rest) l ≡ make_lexeme t text l rest (along text l)

  word-Scanned : (text : List ℕ) → IsWord text → Scanned (word_token text) text
  word-Scanned [] h = absurd h
  word-Scanned (c ∷ cs) h =
      scan-word c (cs ++ rest) l (h.0) ∙ word_run l rest ends (c ∷ []) cs (next_column l) (h.1)

  int-Scanned : (ds : List ℕ) → IsDigits ds → Scanned Token.int_literal ds
  int-Scanned ds h = scan_digits ds rest l h ∙ number_stop l rest ends ds (along ds l)

  -- A scanned literal that is digits and a tail.
  tail-Scanned :
      (t : Token) (ds tail : List ℕ)
      → IsDigits ds
      → number ds l (tail ++ rest) (along ds l)
        ≡ make_lexeme t (ds ++ tail) l rest (along tail (along ds l))
      → Scanned t (ds ++ tail)
  tail-Scanned t ds tail h e =
      ap (λ cs. scan cs l) (append_assoc ds tail rest)
      ∙ scan_digits ds (tail ++ rest) l h
      ∙ e
      ∙ ap (make_lexeme t (ds ++ tail) l rest) (sym (along-append ds tail l))

  suffixed-Scanned :
      (ds es : List ℕ) → IsDigits ds → IsDigits es → Scanned Token.int_literal (ds ++ b'i' ∷ es)
  suffixed-Scanned ds [] h k = absurd k
  suffixed-Scanned ds (e ∷ es) h k = tail-Scanned Token.int_literal ds (b'i' ∷ e ∷ es) h (
      number-suffix l (es ++ rest) ds (along ds l) e (k.0)
      ∙ suffix_run l rest ends ((ds ++ b'i' ∷ []) ++ e ∷ []) es
          (next_column (next_column (along ds l))) (k.1)
      ∙ ap
          (λ t.
            make_lexeme Token.int_literal t l rest
              (along es (next_column (next_column (along ds l)))))
          (append_assoc (ds ++ b'i' ∷ []) (e ∷ []) es ∙ append_assoc ds (b'i' ∷ []) (e ∷ es)))

  float-Scanned :
      (ds es : List ℕ)
      → IsDigits ds
      → AllOf digit es
      → Scanned Token.float_literal (ds ++ b'.' ∷ es)
  float-Scanned ds es h k = tail-Scanned Token.float_literal ds (b'.' ∷ es) h (
      number_point l (es ++ rest) ds (along ds l)
      ∙ fraction_run (ds ++ b'.' ∷ []) es rest l (next_column (along ds l)) k
      ∙ fraction_stop l rest ends ((ds ++ b'.' ∷ []) ++ es) (along es (next_column (along ds l)))
      ∙ ap (λ t. make_lexeme Token.float_literal t l rest (along es (next_column (along ds l))))
          (append_assoc ds (b'.' ∷ []) es))

  float_both-Scanned :
      (ds es : List ℕ) (c : ℕ)
      → IsDigits ds
      → AllOf digit es
      → is_float_letter c ≡ true
      → Scanned Token.float_literal (ds ++ b'.' ∷ (es ++ c ∷ []))
  float_both-Scanned ds es c h k f = tail-Scanned Token.float_literal ds (b'.' ∷ (es ++ c ∷ [])) h (
      number_point l ((es ++ c ∷ []) ++ rest) ds (along ds l)
      ∙ ap (λ cs. fraction (ds ++ b'.' ∷ []) l cs (next_column (along ds l)))
          (append_assoc es (c ∷ []) rest)
      ∙ fraction_run (ds ++ b'.' ∷ []) es (c ∷ rest) l (next_column (along ds l)) k
      ∙ fraction_letter l rest ((ds ++ b'.' ∷ []) ++ es) (along es (next_column (along ds l))) c f
      ∙ ap (make_lexeme Token.float_literal (((ds ++ b'.' ∷ []) ++ es) ++ c ∷ []) l rest)
          (sym (along-append es (c ∷ []) (next_column (along ds l))))
      ∙ ap
          (λ t.
            make_lexeme Token.float_literal t l rest
              (along (es ++ c ∷ []) (next_column (along ds l))))
          (append_assoc (ds ++ b'.' ∷ []) es (c ∷ []) ∙ append_assoc ds (b'.' ∷ []) (es ++ c ∷ [])))

  pub spelled-Scanned : (t : Token) (text : List ℕ) → Spelled t text → Scanned t text
  spelled-Scanned t text (Spelled.keyword q) =
      let (h, found) = keyword-word_token t text q in
      subst (λ t. Scanned t text) found (word-Scanned text h)
  spelled-Scanned t text (Spelled.identifier h none_fits e) =
      subst (λ t. Scanned t text) (identifier-word_token text none_fits ∙ sym e)
        (word-Scanned text h)
  spelled-Scanned t text (Spelled.int h e) =
      subst (λ t. Scanned t text) (sym e) (int-Scanned text h)
  spelled-Scanned t text (Spelled.int_suffixed ds es h k q e) =
      subst (λ t. Scanned t text) (sym e)
        (subst (Scanned Token.int_literal) (sym q) (suffixed-Scanned ds es h k))
  spelled-Scanned t text (Spelled.float_letter ds c h f q e) =
      subst (λ t. Scanned t text) (sym e)
        (subst (Scanned Token.float_literal) (sym q) (
          tail-Scanned Token.float_literal ds (c ∷ []) h
            (number_letter l rest ds (along ds l) c f)))
  spelled-Scanned t text (Spelled.float ds es h k q e) =
      subst (λ t. Scanned t text) (sym e)
        (subst (Scanned Token.float_literal) (sym q) (float-Scanned ds es h k))
  spelled-Scanned t text (Spelled.float_both ds es c h k f q e) =
      subst (λ t. Scanned t text) (sym e)
        (subst (Scanned Token.float_literal) (sym q) (float_both-Scanned ds es c h k f))
  spelled-Scanned t text (Spelled.symbol e) = scan_symbol t text rest l e ends

-- Blanks and newlines before a lexeme are skipped.
scan-past :
    (blanks cs : List ℕ) (l : Location)
    → AllOf is_space blanks
    → scan (blanks ++ cs) l ≡ scan cs (past blanks l)
unfolding scan
scan-past [] cs l h = refl
scan-past (b ∷ bs) cs l h = elim (Bool-cases (b == b'\n')) [
  | inl e ↦ rw (e, scan) (scan-past bs cs (next_line l) (h.1))
  | inr e ↦ rw (e, blank e, scan) (scan-past bs cs (next_column l) (h.1))
]
  where
    blank : (b == b'\n') ≡ false → is_blank b ≡ true
    blank e = ground (arith, h.0, e)

-- A text that spells a token, behind any blanks and newlines, and where the input ends or a blank or a
-- newline follows, is scanned as this token, with this text, from behind the blanks to its last
-- character; what follows is left.
pub scan-Spelled :
    (blanks text rest : List ℕ) (t : Token) (l : Location)
    → AllOf is_space blanks
    → Spelled t text
    → Delimited rest
    → scan (blanks ++ (text ++ rest)) l ≡ token_at t text (past blanks l) rest
scan-Spelled blanks text rest t l h s ends =
    scan-past blanks (text ++ rest) l h ∙ spelled-Scanned rest (past blanks l) ends t text s
