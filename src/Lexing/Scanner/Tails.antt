-- ===== src/Lexing/Scanner/Tails.antt =====
-- What the states of the scanner's loop give (code/lexing/src/lexeme_stream.cpp), on any input.
use basedlang.Prelude.{
  ℕ, ◌≡◌, refl, sym, ap, ◌∙◌, subst, Bool, true, false, List, [], ◌∷◌, ◌++◌, append_assoc,
  append-nil, Bool-cases, inl, inr,
}
use basedlang.Lexing.Token.{Token, Location, next_column}
use basedlang.Lexing.Scanner.{
  Lexed, lex_error, make_lexeme, is_digit, is_word, word_token, word, suffix, fraction,
}
use basedlang.Lexing.Scanner.Grammar.{
  word_character, digit, AllOf, IsWord, IsDigits, is_float_letter, Spelled, Malformed, along,
}
use basedlang.Lexing.Scanner.Words.{word_token-Spelled}

-- From a text that has been read, and from the input behind it: a token whose text goes on with what
-- has been taken from the input, or an error at the start about such a text.
pub data Tail (start : Location) (text cs : List ℕ) (l : Location) (r : Lexed) : Type 0 where
  token :
      (t : Token) (more rest : List ℕ)
      → r ≡ make_lexeme t (text ++ more) start rest (along more l)
      → cs ≡ more ++ rest
      → Spelled t (text ++ more)
      → Tail start text cs l r
  error :
      (more rest : List ℕ)
      → r ≡ lex_error start rest (along more l)
      → cs ≡ more ++ rest
      → Malformed (text ++ more) rest
      → Tail start text cs l r

-- The text ends here.
pub stop :
    (t : Token) (start : Location) (text cs : List ℕ) (l : Location)
    → Spelled t text
    → Tail start text cs l (make_lexeme t text start cs l)
stop t start text cs l s =
    Tail.token t [] cs (ap (λ x. make_lexeme t x start cs l) (sym (append-nil text))) refl
      (subst (Spelled t) (sym (append-nil text)) s)

pub error_stop :
    (start : Location) (text cs : List ℕ) (l : Location)
    → Malformed text cs
    → Tail start text cs l (lex_error start cs l)
error_stop start text cs l m =
    Tail.error [] cs refl refl (subst (λ x. Malformed x cs) (sym (append-nil text)) m)

-- The text goes on with a character.
pub step :
    (start : Location) (text cs : List ℕ) (c : ℕ) (l : Location) (r : Lexed)
    → Tail start (text ++ c ∷ []) cs (next_column l) r
    → Tail start text (c ∷ cs) l r
step start text cs c l r (Tail.token t more rest e q s) =
    Tail.token t (c ∷ more) rest
      (e
        ∙ ap (λ x. make_lexeme t x start rest (along more (next_column l)))
            (append_assoc text (c ∷ []) more))
      (ap (λ xs. c ∷ xs) q) (subst (Spelled t) (append_assoc text (c ∷ []) more) s)
step start text cs c l r (Tail.error more rest e q m) =
    Tail.error (c ∷ more) rest e (ap (λ xs. c ∷ xs) q)
      (subst (λ x. Malformed x rest) (append_assoc text (c ∷ []) more) m)

AllOf-snoc : (p : ℕ → Bool) (cs : List ℕ) (c : ℕ) → AllOf p cs → p c ≡ true → AllOf p (cs ++ c ∷ [])
AllOf-snoc p [] c h k = (k, tt)
AllOf-snoc p (d ∷ cs) c h k = (h.0, AllOf-snoc p cs c (h.1) k)

IsWord-snoc : (cs : List ℕ) (c : ℕ) → IsWord cs → word_character c ≡ true → IsWord (cs ++ c ∷ [])
IsWord-snoc [] c h k = absurd h
IsWord-snoc (d ∷ cs) c h k = (h.0, AllOf-snoc word_character cs c (h.1) k)

pub IsDigits-snoc : (cs : List ℕ) (c : ℕ) → IsDigits cs → digit c ≡ true → IsDigits (cs ++ c ∷ [])
IsDigits-snoc [] c h k = absurd h
IsDigits-snoc (d ∷ cs) c h k = (h.0, AllOf-snoc digit cs c (h.1) k)

IsDigits-AllOf : (cs : List ℕ) (c : ℕ) → AllOf digit cs → digit c ≡ true → IsDigits (cs ++ c ∷ [])
IsDigits-AllOf [] c h k = (k, tt)
IsDigits-AllOf (d ∷ cs) c h k = (h.0, AllOf-snoc digit cs c (h.1) k)

module _ (start : Location) where
  pub word-Tail :
      (cs text : List ℕ) (l : Location) → IsWord text → Tail start text cs l (word text start cs l)
  unfolding word
  word-Tail [] text l h = stop (word_token text) start text [] l (word_token-Spelled text h)
  word-Tail (c ∷ cs) text l h = elim (Bool-cases (is_word c)) [
    | inl e ↦
        rw (e, word)
          (step start text cs c l (word (text ++ c ∷ []) start cs (next_column l))
            (word-Tail cs (text ++ c ∷ []) (next_column l) (IsWord-snoc text c h e)))
    | inr e ↦
        rw (e, word) (stop (word_token text) start text (c ∷ cs) l (word_token-Spelled text h))
  ]

  module _ (ds : List ℕ) (digits : IsDigits ds) where
    suffix-stop :
        (text es cs : List ℕ) (l : Location)
        → text ≡ ds ++ b'i' ∷ es
        → IsDigits es
        → Tail start text cs l (make_lexeme Token.int_literal text start cs l)
    suffix-stop text es cs l q k =
        stop Token.int_literal start text cs l (Spelled.int_suffixed ds es digits k q refl)

    grown :
        (d : ℕ) (text es : List ℕ) (c : ℕ)
        → text ≡ ds ++ d ∷ es
        → text ++ c ∷ [] ≡ ds ++ d ∷ (es ++ c ∷ [])
    grown d text es c q = ap (λ x. x ++ c ∷ []) q ∙ append_assoc ds (d ∷ es) (c ∷ [])

    pub suffix-Tail :
        (cs text es : List ℕ) (l : Location)
        → text ≡ ds ++ b'i' ∷ es
        → IsDigits es
        → Tail start text cs l (suffix false text start cs l)
    unfolding suffix
    suffix-Tail [] text es l q k = suffix-stop text es [] l q k
    suffix-Tail (c ∷ cs) text es l q k = elim (Bool-cases (is_digit c)) [
      | inl e ↦
          rw (e, suffix)
            (step start text cs c l (suffix false (text ++ c ∷ []) start cs (next_column l)) (
              suffix-Tail cs (text ++ c ∷ []) (es ++ c ∷ []) (next_column l)
                (grown b'i' text es c q) (IsDigits-snoc es c k e)))
      | inr e ↦ rw (e, suffix) (suffix-stop text es (c ∷ cs) l q k)
    ]

    -- Behind the `i`, where a digit must follow.
    pub suffix_start-Tail :
        (cs : List ℕ) (l : Location)
        → Tail start (ds ++ b'i' ∷ []) cs l (suffix true (ds ++ b'i' ∷ []) start cs l)
    unfolding suffix
    suffix_start-Tail [] l =
        error_stop start (ds ++ b'i' ∷ []) [] l (Malformed.no_size ds digits refl tt)
    suffix_start-Tail (c ∷ cs) l = elim (Bool-cases (is_digit c)) [
      | inl e ↦
          rw (e, suffix)
            (step start (ds ++ b'i' ∷ []) cs c l
              (suffix false ((ds ++ b'i' ∷ []) ++ c ∷ []) start cs (next_column l))
              (suffix-Tail cs ((ds ++ b'i' ∷ []) ++ c ∷ []) (c ∷ []) (next_column l)
                (grown b'i' (ds ++ b'i' ∷ []) [] c refl) (e, tt)))
      | inr e ↦
          rw (e, suffix)
            (error_stop start (ds ++ b'i' ∷ []) (c ∷ cs) l (Malformed.no_size ds digits refl e))
    ]

    fraction-stop :
        (text es cs : List ℕ) (l : Location)
        → text ≡ ds ++ b'.' ∷ es
        → AllOf digit es
        → Tail start text cs l (make_lexeme Token.float_literal text start cs l)
    fraction-stop text es cs l q k =
        stop Token.float_literal start text cs l (Spelled.float ds es digits k q refl)

    pub fraction-Tail :
        (cs text es : List ℕ) (l : Location)
        → text ≡ ds ++ b'.' ∷ es
        → AllOf digit es
        → Tail start text cs l (fraction text start cs l)
    unfolding fraction
    fraction-Tail [] text es l q k = fraction-stop text es [] l q k
    fraction-Tail (c ∷ cs) text es l q k = elim (Bool-cases (is_digit c)) [
      | inl e ↦
          rw (e, fraction)
            (step start text cs c l (fraction (text ++ c ∷ []) start cs (next_column l)) (
              fraction-Tail cs (text ++ c ∷ []) (es ++ c ∷ []) (next_column l)
                (grown b'.' text es c q) (AllOf-snoc digit es c k e)))
      | inr e ↦ elim (Bool-cases (is_float_letter c)) [
        | inl f ↦
            rw (e, f, fraction)
              (step start text cs c l
                (make_lexeme Token.float_literal (text ++ c ∷ []) start cs (next_column l))
                (stop Token.float_literal start (text ++ c ∷ []) cs (next_column l)
                  (Spelled.float_both ds es c digits k f (grown b'.' text es c q) refl)))
        | inr f ↦ rw (e, f, fraction) (fraction-stop text es (c ∷ cs) l q k)
      ]
    ]
