-- ===== src/Parsing/Result.antt =====
-- What the parser reads and what it gives. The lexeme reader below the parser gives lexemes until the
-- input ends, from where on it gives the lexeme `eof`, or until the scanner throws.
use basedlang.Prelude.{
  ℕ, suc, ◌+◌, ◌≡◌, refl, ap, arith, Bool, true, false, List, [], ◌∷◌, ◌++◌, length,
}
use basedlang.Lexing.Token.{Token, Span, Lexeme}

pub data Stream : Type 0 where
  next : Lexeme → Stream → Stream
  at_eof : Span → Stream
  scanner_throws : Stream

abbrev pub eof_lexeme : Span → Lexeme
eof_lexeme span = record { token = Token.eof; text = []; span = span }

-- A value, the `std::runtime_error` about a lexeme, a `Lex_error`, or the end of the fuel.
pub data Parsed (A : Type 0) : Type 0 where
  ok : A → Parsed A
  unexpected : Lexeme → Parsed A
  lex_error out_of_fuel : Parsed A

abbrev pub bind : {A B : Type 0} → Parsed A → (A → Parsed B) → Parsed B
bind (ok a) k = k a
bind (unexpected l) k = unexpected l
bind lex_error k = lex_error
bind out_of_fuel k = out_of_fuel

abbrev pub Parser : Type 0 → Type 0
Parser A = Stream → Parsed (A × Stream)

abbrev pub pure : {A : Type 0} → A → Parser A
pure a s = ok (a, s)

infixl 5 ◌>>=◌ ◌>>◌
abbrev pub ◌>>=◌ : {A B : Type 0} → Parser A → (A → Parser B) → Parser B
p >>= k = λ s. bind (p s) λ (a, s'). k a s'

abbrev pub ◌>>◌ : {A B : Type 0} → Parser A → Parser B → Parser B
p >> q = p >>= λ _. q

-- A branch, of which only the part that is taken is run.
abbrev pub choose : {A : Type 0} → Bool → Parser A → Parser A → Parser A
choose true p q s = p s
choose false p q s = q s

-- `peek` and `read` of the reader
abbrev pub peek : Parser Lexeme
peek (next l s) = ok (l, next l s)
peek (at_eof span) = ok (eof_lexeme span, at_eof span)
peek scanner_throws = lex_error

abbrev pub read : Parser Lexeme
read (next l s) = ok (l, s)
read (at_eof span) = ok (eof_lexeme span, at_eof span)
read scanner_throws = lex_error

-- The lexemes, in front of a stream.
abbrev pub give : List Lexeme → Stream → Stream
give [] s = s
give (l ∷ ls) s = next l (give ls s)

pub give-append : (xs ys : List Lexeme) (s : Stream) → give (xs ++ ys) s ≡ give xs (give ys s)
give-append [] ys s = refl
give-append (x ∷ xs) ys s = ap (next x) (give-append xs ys s)

-- The lexemes that a stream has left.
abbrev pub remaining : Stream → ℕ
remaining (next l s) = suc (remaining s)
remaining (at_eof span) = 0
remaining scanner_throws = 0

pub remaining-give :
    (xs : List Lexeme) (s : Stream) → remaining (give xs s) ≡ length xs + remaining s
remaining-give [] s = omega arith
remaining-give (x ∷ xs) s = omega (arith, remaining-give xs s)

-- The run kept within its fuel, and `P` holds of what it gave, if it gave something.
pub data Ensures {A : Type 0} (P : A → Type 0) : Parsed A → Type 0 where
  holds : {a : A} → P a → Ensures P (ok a)
  rejected : {l : Lexeme} → Ensures P (unexpected l)
  scanner_threw : Ensures P lex_error

module _ {A B : Type 0} {P : A → Type 0} {Q : B → Type 0} where
  pub Ensures-bind :
      {r : Parsed A} {k : A → Parsed B}
      → Ensures P r
      → ((a : A) → P a → Ensures Q (k a))
      → Ensures Q (bind r k)
  Ensures-bind (holds {a} h) f = f a h
  Ensures-bind rejected f = rejected
  Ensures-bind scanner_threw f = scanner_threw

module _ {A : Type 0} {P : A × Stream → Type 0} where
  pub Ensures-choose :
      (b : Bool) (p q : Parser A) (s : Stream)
      → (b ≡ true → Ensures P (p s))
      → (b ≡ false → Ensures P (q s))
      → Ensures P (choose b p q s)
  Ensures-choose true p q s f g = f refl
  Ensures-choose false p q s f g = g refl
