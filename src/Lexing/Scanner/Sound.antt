-- ===== src/Lexing/Scanner/Sound.antt =====
-- Whatever the scanner gives is a lexeme of the language (code/lexing/src/lexeme_stream.cpp).
use basedlang.Prelude.{
  ℕ, ◌≡◌, refl, sym, ap, subst, true, ◌==◌, ==_iff, List, [], ◌∷◌, ◌++◌, arith, if◌then◌else◌,
  Bool-cases, inl, inr,
}
use basedlang.Lexing.Token.{Token, Location, next_line, next_column}
use basedlang.Lexing.Scanner.{
  Lexed, lexeme, lex_error, make_lexeme, is_digit, is_word_start, is_blank, word, suffix, fraction,
  number, symbol, scan,
}
use basedlang.Lexing.Scanner.Grammar.{
  AllOf, IsDigits, is_float_letter, Spelled, Malformed, is_space, along, past, token_at,
}
use basedlang.Lexing.Scanner.Tails.{
  Tail, stop, step, IsDigits-snoc, word-Tail, suffix_start-Tail, fraction-Tail,
}
use basedlang.Lexing.Scanner.SymbolTails.{symbol-Tail}

number-Tail :
    (start : Location) (cs text : List ℕ) (l : Location)
    → IsDigits text
    → Tail start text cs l (number text start cs l)
unfolding number
number-Tail start [] text l h = stop Token.int_literal start text [] l (Spelled.int h refl)
number-Tail start (c ∷ cs) text l h = elim (Bool-cases (is_digit c)) [
  | inl e ↦
      rw (e, number)
        (step start text cs c l (number (text ++ c ∷ []) start cs (next_column l))
          (number-Tail start cs (text ++ c ∷ []) (next_column l) (IsDigits-snoc text c h e)))
  | inr e ↦ elim (Bool-cases (c == b'.')) [
    | inl p ↦
        rw (e, p, number)
          (step start text cs c l (fraction (text ++ c ∷ []) start cs (next_column l)) (
            fraction-Tail start text h cs (text ++ c ∷ []) [] (next_column l)
              (ap (λ x. text ++ x ∷ []) ((==_iff c b'.').0 p)) tt))
    | inr p ↦ elim (Bool-cases (is_float_letter c)) [
      | inl f ↦
          rw (e, p, f, number)
            (step start text cs c l
              (make_lexeme Token.float_literal (text ++ c ∷ []) start cs (next_column l))
              (stop Token.float_literal start (text ++ c ∷ []) cs (next_column l)
                (Spelled.float_letter text c h f refl refl)))
      | inr f ↦ elim (Bool-cases (c == b'i')) [
        | inl i ↦
            rw (e, p, f, i, number)
              (step start text cs c l (suffix true (text ++ c ∷ []) start cs (next_column l)) (
                subst
                  (λ x.
                    Tail start (text ++ x ∷ []) cs (next_column l)
                      (suffix true (text ++ x ∷ []) start cs (next_column l)))
                  (sym ((==_iff c b'i').0 i)) (suffix_start-Tail start text h cs (next_column l))))
        | inr i ↦
            rw (e, p, f, i, number)
              (stop Token.int_literal start text (c ∷ cs) l (Spelled.int h refl))
      ]
    ]
  ]
]

-- What a run of the scanner from a location amounts to: behind blanks and newlines there is a lexeme
-- with its text and span, or the end of the input, or an error about what no lexeme begins with.
pub data Result (cs : List ℕ) (l : Location) (r : Lexed) : Type 0 where
  of_token :
      (t : Token) (blanks text rest : List ℕ)
      → AllOf is_space blanks
      → cs ≡ blanks ++ (text ++ rest)
      → Spelled t text
      → r ≡ token_at t text (past blanks l) rest
      → Result cs l r
  of_end :
      AllOf is_space cs
      → r ≡ lexeme Token.eof [] (record { start = past cs l; end = past cs l }) [] (past cs l)
      → Result cs l r
  of_error :
      (blanks text rest : List ℕ)
      → AllOf is_space blanks
      → cs ≡ blanks ++ (text ++ rest)
      → Malformed text rest
      → r ≡ lex_error (past blanks l) rest (along text (past blanks l))
      → Result cs l r

from_Tail :
    (c : ℕ) (cs : List ℕ) (l : Location) (r : Lexed)
    → Tail l (c ∷ []) cs (next_column l) r
    → Result (c ∷ cs) l r
from_Tail c cs l r (Tail.token t more rest e q s) =
    Result.of_token t [] (c ∷ more) rest tt (ap (λ xs. c ∷ xs) q) s e
from_Tail c cs l r (Tail.error more rest e q m) =
    Result.of_error [] (c ∷ more) rest tt (ap (λ xs. c ∷ xs) q) m e

blank_step :
    (c : ℕ) (cs : List ℕ) (l : Location) (r : Lexed)
    → is_space c ≡ true
    → Result cs (if c == b'\n' then next_line l else next_column l) r
    → Result (c ∷ cs) l r
blank_step c cs l r b (Result.of_token t blanks text rest h q s e) =
    Result.of_token t (c ∷ blanks) text rest (b, h) (ap (λ xs. c ∷ xs) q) s e
blank_step c cs l r b (Result.of_end h e) = Result.of_end (b, h) e
blank_step c cs l r b (Result.of_error blanks text rest h q m e) =
    Result.of_error (c ∷ blanks) text rest (b, h) (ap (λ xs. c ∷ xs) q) m e

-- On every input the scanner gives a token of the language, spelled by the characters behind the blanks
-- and newlines and before what is left, with its location; or `eof` where there are only blanks and
-- newlines; or an error at the first character that is neither, and there only where this character is
-- no part of the language, or begins digits and an `i` with no digit behind it.
pub scan-Result : (cs : List ℕ) (l : Location) → Result cs l (scan cs l)
unfolding scan
scan-Result [] l = Result.of_end tt refl
scan-Result (c ∷ cs) l = elim (Bool-cases (c == b'\n')) [
  | inl n ↦
      blank_step c cs l (scan (c ∷ cs) l) (ground arith)
        (rw (n, scan) (scan-Result cs (next_line l)))
  | inr n ↦ elim (Bool-cases (is_blank c)) [
    | inl b ↦
        blank_step c cs l (scan (c ∷ cs) l) (ground arith)
          (rw (n, b, scan) (scan-Result cs (next_column l)))
    | inr b ↦ elim (Bool-cases (is_word_start c)) [
      | inl w ↦
          rw (n, b, w, scan)
            (from_Tail c cs l (word (c ∷ []) l cs (next_column l))
              (word-Tail l cs (c ∷ []) (next_column l) (w, tt)))
      | inr w ↦ elim (Bool-cases (is_digit c)) [
        | inl d ↦
            rw (n, b, w, d, scan)
              (from_Tail c cs l (number (c ∷ []) l cs (next_column l))
                (number-Tail l cs (c ∷ []) (next_column l) (d, tt)))
        | inr d ↦
            rw (n, b, w, d, scan)
              (from_Tail c cs l (symbol c l cs (next_column l))
                (symbol-Tail c l cs (next_column l) (ground (arith, n, b)) w d))
      ]
    ]
  ]
]
